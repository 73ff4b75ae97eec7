-- ===== src/Web/CostPage.antt =====
-- The cost page of the dashboard (apps/web/src/app/(dashboard)/cost/page.tsx): its figures, and the
-- range of days that is shown.
pub mod Window
use Prim.Native.Nat.{zero, suc}
use ai_gcm.Base.{ℕ, ◌+◌, ◌-◌, String, List, [], ◌∷◌, length, drop, ◌==◌, if◌then◌else◌}

pub record DailyCost : Type 0 where
  pub date : String
  pub anthropic : ℕ
  pub openai : ℕ
  pub google : ℕ
  pub azure : ℕ

-- An object literal, its fields in order.
abbrev pub day : String → ℕ → ℕ → ℕ → ℕ → DailyCost
day d a o g z = record { date = d; anthropic = a; openai = o; google = g; azure = z }

abbrev pub daily_cost : List DailyCost
daily_cost =
    day "Jun 1" 1200 800 400 200
    ∷ day "Jun 2" 1400 950 380 220
    ∷ day "Jun 3" 1100 700 420 190
    ∷ day "Jun 4" 1800 1100 500 300
    ∷ day "Jun 5" 2100 1300 600 280
    ∷ day "Jun 6" 1950 1200 550 240
    ∷ day "Jun 7" 2400 1450 680 310
    ∷ day "Jun 8" 2200 1380 620 295
    ∷ day "Jun 9" 2600 1550 710 330
    ∷ day "Jun 10" 2800 1700 780 360
    ∷ day "Jun 11" 2350 1420 650 280
    ∷ day "Jun 12" 2700 1600 730 340
    ∷ day "Jun 13" 3100 1850 820 390
    ∷ day "Jun 14" 2900 1750 790 370
    ∷ []

pub record ModelCost : Type 0 where
  pub model : String
  pub cost : ℕ
  pub requests : ℕ
  pub provider : String

abbrev pub model_cost : String → ℕ → ℕ → String → ModelCost
model_cost m c r p = record { model = m; cost = c; requests = r; provider = p }

abbrev pub model_breakdown : List ModelCost
model_breakdown =
    model_cost "claude-3-5-sonnet" 8200 1840 "anthropic"
    ∷ model_cost "gpt-4o" 6100 980 "openai"
    ∷ model_cost "claude-3-5-haiku" 4300 6200 "anthropic"
    ∷ model_cost "gpt-4o-mini" 1700 4100 "openai"
    ∷ model_cost "gemini-2.0-flash" 2100 7800 "google"
    ∷ model_cost "gemini-2.5-pro" 1100 420 "google"
    ∷ []

-- A cost for one request, in ten thousandths of a dollar.
pub record RequestCost : Type 0 where
  pub model : String
  pub avg : ℕ

abbrev pub request_cost : String → ℕ → RequestCost
request_cost m a = record { model = m; avg = a }

abbrev pub cost_per_req : List RequestCost
cost_per_req =
    request_cost "claude-3-5-sonnet" 45
    ∷ request_cost "gpt-4o" 62
    ∷ request_cost "claude-3-5-haiku" 7
    ∷ request_cost "gpt-4o-mini" 4
    ∷ request_cost "gemini-2.0-flash" 3
    ∷ request_cost "gemini-2.5-pro" 26
    ∷ []

abbrev pub ranges : List String
ranges = "Last 7 Days" ∷ "Last 14 Days" ∷ "Month to Date" ∷ "Last 30 Days" ∷ []

-- `xs.slice(-n)`, for n above 0.
abbrev pub slice_last : {A : Type 0} → ℕ → List A → List A
slice_last n xs = drop (length xs - n) xs

-- `range === 'Last 7 Days' ? dailyCost.slice(-7) : dailyCost`.
unfoldable pub sliced : (range : String) → List DailyCost → List DailyCost
sliced range days = if range == "Last 7 Days" then slice_last 7 days else days
