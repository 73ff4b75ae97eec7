-- ===== src/Web/Overview.antt =====
-- The overview page of the dashboard (apps/web/src/app/(dashboard)/overview/page.tsx): its figures,
-- the parts that draw them, and its state.
pub mod Recent
pub mod Longer
pub mod Figures
pub mod Reading
use ai_gcm.Base.{
  ℕ, String, Bool, true, false, not, Option, none, some, List, [], ◌∷◌, map, length, take, ltb, leb,
  ◌==◌, if◌then◌else◌,
}
use ai_gcm.Web.AlertsPage.{keep}

pub data PeriodKey : Type 0 where
  mtd last_7d last_30d qtd : PeriodKey

pub data ℤ : Type 0 where
  pos : ℕ → ℤ
  negsuc : ℕ → ℤ

pub record Kpi : Type 0 where
  pub label : String
  pub value : String
  pub delta : ℤ
  pub delta_label : String

pub record Kpis : Type 0 where
  pub spend : Kpi
  pub utilization : Kpi
  pub users : Kpi
  pub violations : Kpi

pub record TrendPoint : Type 0 where
  pub date : String
  pub anthropic : ℕ
  pub openai : ℕ
  pub google : ℕ

pub record ProviderShare : Type 0 where
  pub name : String
  pub value : ℕ
  pub color : String

pub record TeamRow : Type 0 where
  pub name : String
  pub spend : ℕ
  pub budget : ℕ
  pub model : String
  pub pct : ℕ

pub record PeriodData : Type 0 where
  pub label : String
  pub subtitle : String
  pub provider_subtitle : String
  pub kpis : Kpis
  pub cost_trend : List TrendPoint
  pub provider_breakdown : List ProviderShare
  pub teams : List TeamRow

-- Object literals, their fields in order.
abbrev pub kpi : String → String → ℤ → String → Kpi
kpi l v d dl = record { label = l; value = v; delta = d; delta_label = dl }

abbrev pub point : String → ℕ → ℕ → ℕ → TrendPoint
point d a o g = record { date = d; anthropic = a; openai = o; google = g }

abbrev pub share : String → ℕ → String → ProviderShare
share n v c = record { name = n; value = v; color = c }

abbrev pub team : String → ℕ → ℕ → String → ℕ → TeamRow
team n s b m p = record { name = n; spend = s; budget = b; model = m; pct = p }

-- KpiCard: the arrow, its colours, and the figure beside it.
abbrev pub is_up : ℤ → Bool
is_up (pos n) = true
is_up (negsuc n) = false

abbrev pub magnitude : ℤ → ℕ
magnitude (pos n) = n
magnitude (negsuc n) = ℕ.suc n

abbrev pub delta_style : ℤ → String
delta_style d =
    if is_up d then "bg-emerald-500/10 text-emerald-400" else "bg-red-500/10 text-red-400"

-- UtilBar: the colour and the width, in per cent.
abbrev pub bar_color : ℕ → String
bar_color pct =
    if leb 90 pct
    then "from-red-500 to-rose-600"
    else if leb 75 pct
    then "from-amber-500 to-orange-500"
    else "from-emerald-500 to-teal-500"

abbrev pub bar_width : ℕ → ℕ
bar_width pct = if ltb pct 100 then pct else 100

pub record AlertItem : Type 0 where
  pub id : String
  pub type : String
  pub msg : String
  pub entity : String
  pub time : String
  pub read : Bool

abbrev pub item : String → String → String → String → String → Bool → AlertItem
item i t m e w r = record { id = i; type = t; msg = m; entity = e; time = w; read = r }

abbrev pub initial_alerts : List AlertItem
initial_alerts =
    item "1" "critical" "Data Science team at 93% of monthly budget" "Data Science" "2m ago" false
    ∷ item "2" "warning" "Engineering velocity spike: 2.8× rolling avg" "Engineering" "15m ago"
        false
    ∷ item "3" "critical" "DLP: PII detected in prompt — request blocked" "alice@acme.com" "32m ago"
        false
    ∷ item "4" "info" "Policy updated: Sales team model allowlist" "System Policy" "1h ago" true
    ∷ []

abbrev pub unread : List AlertItem → ℕ
unread alerts = length (keep (λ a. not a.read) alerts)

abbrev pub mark : AlertItem → AlertItem
mark a = record a { read = true }

abbrev pub mark_if : String → AlertItem → AlertItem
mark_if id a = if a.id == id then mark a else a

unfoldable pub mark_alert_read : String → List AlertItem → List AlertItem
mark_alert_read id alerts = map (mark_if id) alerts

unfoldable pub mark_all_alerts_read : List AlertItem → List AlertItem
mark_all_alerts_read alerts = map mark alerts

unfoldable pub dismiss_alert : String → List AlertItem → List AlertItem
dismiss_alert id alerts = keep (λ a. not (a.id == id)) alerts

-- The state of the page, and the page that it has left for.
pub record Overview : Type 0 where
  pub period : PeriodKey
  pub alerts : List AlertItem
  pub alerts_drawer_open : Bool
  pub pushed : Option String

abbrev pub initial : Overview
initial = record {
  period = mtd;
  alerts = initial_alerts;
  alerts_drawer_open = false;
  pushed = none;
}

pub data Event : Type 0 where
  set_period : PeriodKey → Event
  open_drawer close_drawer go_to_alerts mark_all : Event
  click_alert mark_read dismiss : (id : String) → Event

unfoldable pub handle : Overview → Event → Overview
unfolding mark_alert_read mark_all_alerts_read dismiss_alert
handle s (set_period p) = record s { period = p }
handle s open_drawer = record s { alerts_drawer_open = true }
handle s close_drawer = record s { alerts_drawer_open = false }
handle s go_to_alerts = record s { alerts_drawer_open = false; pushed = some "/alerts" }
handle s mark_all = record s { alerts = mark_all_alerts_read s.alerts }
handle s (click_alert id) = record s {
  alerts = mark_alert_read id s.alerts;
  alerts_drawer_open = true;
}
handle s (mark_read id) = record s { alerts = mark_alert_read id s.alerts }
handle s (dismiss id) = record s { alerts = dismiss_alert id s.alerts }

unfoldable pub handle_all : Overview → List Event → Overview
unfolding handle
handle_all s [] = s
handle_all s (e ∷ es) = handle_all (handle s e) es

-- The alerts beside the leaderboard.
abbrev pub feed : Overview → List AlertItem
feed s = take 4 s.alerts
