-- ===== src/Web/BudgetsPage/Bars.antt =====
-- The bars of the budget page (apps/web/src/app/(dashboard)/budgets/page.tsx).
use ai_gcm.Base.{ℕ, ◌+◌, ◌-◌, ◌≤◌, ◌<◌, ◌≡◌, true, arith}
use ai_gcm.Web.BudgetsPage.{
  BudgetEntry, StatusIcon, x_circle, alert_triangle, check_circle, util_bar, remaining,
}

-- How alarming an icon is.
abbrev pub level : StatusIcon → ℕ
level check_circle = 0
level alert_triangle = 1
level x_circle = 2

abbrev pub spend_more : ℕ → BudgetEntry → BudgetEntry
spend_more n b = record b { spent = b.spent + n }

-- Spending more never makes the bar of a budget less alarming.
pub util_bar-level :
    (b : BudgetEntry) (n : ℕ) → level (util_bar b).icon ≤ level (util_bar (spend_more n b)).icon
unfolding util_bar
util_bar-level b n = ground arith

-- Once more than the limit is spent, the bar is full and red, and the remaining amount is shown as
-- negative, with the excess.
pub over_limit :
    (b : BudgetEntry)
    → b.limit < b.spent
    → ((util_bar b).icon ≡ x_circle)
      × ((util_bar b).is_full ≡ true)
      × (remaining b ≡ (true, b.spent - b.limit))
unfolding util_bar remaining
over_limit b over = (ground arith, ground arith, ground arith)
