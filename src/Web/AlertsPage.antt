-- ===== src/Web/AlertsPage.antt =====
-- The alert page of the dashboard (apps/web/src/app/(dashboard)/alerts/page.tsx): its alerts, their
-- icons, the filter and what dismissing does.
pub mod Dismissal
use ai_gcm.Base.{
  ℕ, String, Bool, true, false, not, ◌||◌, ◌&&◌, List, [], ◌∷◌, map, length, ◌==◌, if◌then◌else◌,
}
use mathlib.Core.List

pub record Alert : Type 0 where
  pub id : String
  pub type : String
  pub severity : String
  pub read : Bool
  pub msg : String
  pub entity : String
  pub time : String

abbrev pub alerts_shown : List Alert
alerts_shown =
    record {
      id = "1";
      type = "budget_threshold";
      severity = "critical";
      read = false;
      msg = "Data Science team has reached 93% of monthly budget ($5,100 / $5,500)";
      entity = "Data Science Team";
      time = "2 min ago";
    }
    ∷ record {
      id = "2";
      type = "velocity_spike";
      severity = "warning";
      read = false;
      msg = "Engineering team request velocity: 2.8× 7-day rolling average (last 1h)";
      entity = "Engineering Team";
      time = "15 min ago";
    }
    ∷ record {
      id = "3";
      type = "dlp_violation";
      severity = "critical";
      read = false;
      msg = "PII detected in prompt — SSN pattern matched. Request blocked. User: alice@acme.com";
      entity = "alice@acme.com";
      time = "32 min ago";
    }
    ∷ record {
      id = "4";
      type = "policy_block";
      severity = "warning";
      read = true;
      msg = "Blocked: gpt-4o requested by Sales team (not in model allowlist)";
      entity = "Sales Team";
      time = "1h ago";
    }
    ∷ record {
      id = "5";
      type = "budget_threshold";
      severity = "info";
      read = true;
      msg = "Organization budget is at 66% utilization ($24,891 / $37,500)";
      entity = "Acme Corp";
      time = "2h ago";
    }
    ∷ record {
      id = "6";
      type = "policy_block";
      severity = "info";
      read = true;
      msg = "Policy updated: Sales team model allowlist now includes gemini-2.0-flash";
      entity = "System";
      time = "3h ago";
    }
    ∷ []

pub data Icon : Type 0 where
  x_circle trending_up shield_alert check_circle : Icon

abbrev pub alert_icon : (type severity : String) → Icon
alert_icon type severity =
    if (type == "dlp_violation") || ((type == "budget_threshold") && (severity == "critical"))
    then x_circle
    else if (type == "velocity_spike") || (severity == "warning")
    then trending_up
    else if type == "policy_block"
    then shield_alert
    else check_circle

abbrev pub severity_style : String → String
severity_style s =
    if s == "critical"
    then "bg-red-500/10 text-red-400 border-red-500/20"
    else if s == "warning"
    then "bg-amber-500/10 text-amber-400 border-amber-500/20"
    else "bg-emerald-500/10 text-emerald-400 border-emerald-500/20"

abbrev pub keep : {A : Type 0} → (A → Bool) → List A → List A
keep p [] = []
keep p (x ∷ xs) = let rest = keep p xs in if p x then x ∷ rest else rest

-- `alerts.filter(a => filter === 'all' || a.severity === filter)`.
abbrev pub filtered : (filter : String) → List Alert → List Alert
filtered filter = keep (λ a. (filter == "all") || (a.severity == filter))

abbrev pub unread : List Alert → ℕ
unread alerts = length (keep (λ a. not a.read) alerts)

abbrev pub mark_read : Alert → Alert
mark_read a = record a { read = true }

abbrev pub mark_if : String → Alert → Alert
mark_if id a = if a.id == id then mark_read a else a

unfoldable pub dismiss : (id : String) → List Alert → List Alert
dismiss id alerts = map (mark_if id) alerts

unfoldable pub dismiss_all : List Alert → List Alert
dismiss_all alerts = map mark_read alerts
