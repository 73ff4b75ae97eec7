-- ===== src/Web/UsagePage.antt =====
-- The usage page of the dashboard (apps/web/src/app/(dashboard)/usage/page.tsx): its figures, the
-- choice of a grouping and the search. `lower` is toLowerCase.
use ai_gcm.Base.{ℕ, String, ◌||◌, List, [], ◌∷◌}
use ai_gcm.Web.Signin.{includes}
use ai_gcm.Web.AlertsPage.{keep}

pub record DayUsage : Type 0 where
  pub date : String
  pub requests : ℕ
  pub tokens : ℕ

-- Object literals, their fields in order.
abbrev pub day : String → ℕ → ℕ → DayUsage
day d r t = record { date = d; requests = r; tokens = t }

abbrev pub requests_by_day : List DayUsage
requests_by_day =
    day "Jun 8" 4200 8400000
    ∷ day "Jun 9" 4800 9600000
    ∷ day "Jun 10" 5100 10200000
    ∷ day "Jun 11" 4600 9200000
    ∷ day "Jun 12" 5400 10800000
    ∷ day "Jun 13" 6200 12400000
    ∷ day "Jun 14" 5900 11800000
    ∷ []

pub record UserUsage : Type 0 where
  pub name : String
  pub team : String
  pub model : String
  pub requests : ℕ
  pub tokens : ℕ
  pub cost : ℕ

abbrev pub user_usage : String → String → String → ℕ → ℕ → ℕ → UserUsage
user_usage n t m r k c = record {
  name = n;
  team = t;
  model = m;
  requests = r;
  tokens = k;
  cost = c;
}

abbrev pub usage_by_user : List UserUsage
usage_by_user =
    user_usage "Alice Chen" "Engineering" "claude-3-5-sonnet" 842 1240000 1860
    ∷ user_usage "Bob Martinez" "Data Science" "gpt-4o" 621 980000 1540
    ∷ user_usage "Carol Wu" "Engineering" "claude-3-5-haiku" 1204 560000 448
    ∷ user_usage "Dan Okafor" "Product" "gpt-4o-mini" 394 720000 108
    ∷ user_usage "Eve Larsson" "Data Science" "claude-3-5-sonnet" 510 840000 1260
    ∷ user_usage "Frank Nguyen" "Customer Ops" "gemini-2.0-flash" 287 420000 32
    ∷ []

pub record ModelTokens : Type 0 where
  pub model : String
  pub tokens : ℕ
  pub color : String

abbrev pub model_token : String → ℕ → String → ModelTokens
model_token m t c = record { model = m; tokens = t; color = c }

abbrev pub model_tokens : List ModelTokens
model_tokens =
    model_token "claude-3-5-haiku" 18400000 "#8b5cf6"
    ∷ model_token "gpt-4o-mini" 14200000 "#3b82f6"
    ∷ model_token "gemini-2.0-flash" 12100000 "#10b981"
    ∷ model_token "claude-3-5-sonnet" 8600000 "#a78bfa"
    ∷ model_token "gpt-4o" 5400000 "#60a5fa"
    ∷ []

abbrev pub group_opts : List String
group_opts = "User" ∷ "Team" ∷ "Provider" ∷ "Model" ∷ []

pub record UsageState : Type 0 where
  pub group_by : String
  pub search : String

-- The table below the charts. The grouping is not read: it stands in the heading only.
unfoldable pub filtered : (lower : String → String) → UsageState → List UserUsage → List UserUsage
unfolding includes
filtered lower s =
    keep (λ u. includes (lower s.search) (lower u.name) || includes (lower s.search) (lower u.team))
