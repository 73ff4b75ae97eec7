-- ===== src/Web/BudgetsPage.antt =====
-- The budget page of the dashboard (apps/web/src/app/(dashboard)/budgets/page.tsx): its budgets and
-- the bar of each. A percentage is a quotient; it is compared here by products, without rounding.
pub mod Bars
use ai_gcm.Base.{
  ℕ, ◌*◌, ◌-◌, ◌/◌, String, Bool, true, false, List, [], ◌∷◌, leb, ltb, if◌then◌else◌,
}

pub record BudgetEntry : Type 0 where
  pub id : String
  pub name : String
  pub scope : String
  pub scope_name : String
  pub period : String
  pub limit : ℕ
  pub spent : ℕ
  pub hard_limit : Bool
  pub thresholds : List ℕ
  pub active : Bool

abbrev pub budgets : List BudgetEntry
budgets =
    record {
      id = "1";
      name = "Engineering Team Budget";
      scope = "team";
      scope_name = "Engineering";
      period = "monthly";
      limit = 15000;
      spent = 12450;
      hard_limit = false;
      thresholds = 50 ∷ 75 ∷ 90 ∷ 100 ∷ [];
      active = true;
    }
    ∷ record {
      id = "2";
      name = "Organization Budget";
      scope = "org";
      scope_name = "Acme Corp";
      period = "monthly";
      limit = 37500;
      spent = 24891;
      hard_limit = false;
      thresholds = 50 ∷ 75 ∷ 90 ∷ 100 ∷ [];
      active = true;
    }
    ∷ record {
      id = "3";
      name = "Data Science Budget";
      scope = "team";
      scope_name = "Data Science";
      period = "monthly";
      limit = 5500;
      spent = 5100;
      hard_limit = true;
      thresholds = 75 ∷ 90 ∷ 100 ∷ [];
      active = true;
    }
    ∷ record {
      id = "4";
      name = "Product Budget";
      scope = "team";
      scope_name = "Product";
      period = "monthly";
      limit = 6000;
      spent = 4200;
      hard_limit = false;
      thresholds = 50 ∷ 75 ∷ 90 ∷ 100 ∷ [];
      active = true;
    }
    ∷ record {
      id = "5";
      name = "Customer Ops Budget";
      scope = "team";
      scope_name = "Customer Ops";
      period = "monthly";
      limit = 4000;
      spent = 1800;
      hard_limit = false;
      thresholds = 50 ∷ 75 ∷ 90 ∷ 100 ∷ [];
      active = false;
    }
    ∷ []

-- `pct >= n`, for `pct = (b.spent / b.limit) * 100`.
abbrev pub reaches : ℕ → BudgetEntry → Bool
reaches n b = leb (n * b.limit) (100 * b.spent)

pub data StatusIcon : Type 0 where
  x_circle alert_triangle check_circle : StatusIcon

-- The bar's colour, its icon, the colour of its text and its width.
pub record Bar : Type 0 where
  pub color : String
  pub icon : StatusIcon
  pub text_color : String
  pub is_full : Bool

abbrev pub red : Bool → Bar
red full = record {
  color = "from-red-500 to-rose-600";
  icon = x_circle;
  text_color = "text-red-400";
  is_full = full;
}

abbrev pub amber : Bool → Bar
amber full = record {
  color = "from-amber-500 to-orange-500";
  icon = alert_triangle;
  text_color = "text-amber-400";
  is_full = full;
}

abbrev pub green : Bool → Bar
green full = record {
  color = "from-emerald-500 to-teal-500";
  icon = check_circle;
  text_color = "text-emerald-400";
  is_full = full;
}

-- UtilBar: the width is `Math.min(pct, 100)`, so that the bar is full from 100 on.
unfoldable pub util_bar : BudgetEntry → Bar
util_bar b =
    let full = reaches 100 b in
    if reaches 90 b then red full else (if reaches 75 b then amber full else green full)

-- `b.limit - b.spent`: whether it is negative, and its size.
unfoldable pub remaining : BudgetEntry → Bool × ℕ
remaining b = if ltb b.limit b.spent then (true, b.spent - b.limit) else (false, b.limit - b.spent)
