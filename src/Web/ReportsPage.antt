-- ===== src/Web/ReportsPage.antt =====
-- The report page of the dashboard (apps/web/src/app/(dashboard)/reports/page.tsx): its figures, the
-- month that is chosen, and the history with its changes from month to month.
pub mod History
use mathlib.Core.List.{reverse}
use ai_gcm.Base.{
  ℕ, ◌*◌, ◌-◌, String, Bool, Option, none, some, List, [], ◌∷◌, leb, ◌==◌, if◌then◌else◌,
}

pub record MonthSummary : Type 0 where
  pub month : String
  pub cost : ℕ
  pub requests : ℕ
  pub tokens : ℕ
  pub users : ℕ

abbrev pub summary : String → ℕ → ℕ → ℕ → ℕ → MonthSummary
summary m c r t u = record { month = m; cost = c; requests = r; tokens = t; users = u }

abbrev pub june : MonthSummary
june = summary "Jun 2026" 24891 38200 68400000 342

abbrev pub monthly_summary : List MonthSummary
monthly_summary =
    summary "Jan 2026" 18200 28400 48200000 298
    ∷ summary "Feb 2026" 21400 33100 56800000 311
    ∷ summary "Mar 2026" 19800 30600 52400000 305
    ∷ summary "Apr 2026" 23100 36800 62100000 318
    ∷ summary "May 2026" 22200 34700 58900000 325
    ∷ june
    ∷ []

-- A share in tenths of a per cent.
pub record TeamReport : Type 0 where
  pub team : String
  pub cost : ℕ
  pub requests : ℕ
  pub pct_tenths : ℕ

abbrev pub team_report : List TeamReport
team_report =
    record { team = "Engineering"; cost = 12450; requests = 18420; pct_tenths = 500 }
    ∷ record { team = "Data Science"; cost = 5100; requests = 6200; pct_tenths = 205 }
    ∷ record { team = "Product"; cost = 4200; requests = 6840; pct_tenths = 169 }
    ∷ record { team = "Customer Ops"; cost = 1800; requests = 4820; pct_tenths = 72 }
    ∷ record { team = "Sales"; cost = 1341; requests = 1920; pct_tenths = 54 }
    ∷ []

-- `MONTHLY_SUMMARY.find(m => m.month === selectedMonth)`.
abbrev pub find_month : String → List MonthSummary → Option MonthSummary
find_month selected [] = none
find_month selected (m ∷ ms) = if m.month == selected then some m else find_month selected ms

abbrev pub or_month : Option MonthSummary → MonthSummary → MonthSummary
or_month none fallback = fallback
or_month (some m) fallback = m

-- `find(…) ?? MONTHLY_SUMMARY[MONTHLY_SUMMARY.length - 1]`.
abbrev pub current : (selected_month : String) → MonthSummary
current selected = or_month (find_month selected monthly_summary) june

-- A change as a fraction: by how much the cost rose or fell, over the earlier cost.
pub record Change : Type 0 where
  pub rose : Bool
  pub amount : ℕ
  pub over : ℕ

-- `((row.cost - prev.cost) / prev.cost) * 100`, and whether it is `>= 0`.
abbrev pub change_from : MonthSummary → MonthSummary → Change
change_from prev row =
    if leb prev.cost row.cost
    then record { rose = Bool.true; amount = row.cost - prev.cost; over = prev.cost }
    else record { rose = Bool.false; amount = prev.cost - row.cost; over = prev.cost }

-- The rows from the first on, each with the one after it: `arr[i + 1]`.
abbrev pub rows_of : List MonthSummary → List (MonthSummary × Option Change)
rows_of [] = []
rows_of (row ∷ []) = (row, none) ∷ []
rows_of (row ∷ prev ∷ rest) = (row, some (change_from prev row)) ∷ rows_of (prev ∷ rest)

-- `[...MONTHLY_SUMMARY].reverse().map((row, i, arr) => …)`.
unfoldable pub history : List MonthSummary → List (MonthSummary × Option Change)
history months = rows_of (reverse months)

abbrev pub change_style : Change → String
change_style c = if c.rose then "text-red-400" else "text-emerald-400"

-- The sign before the figure: `change >= 0 ? '+' : ''`, and the minus of a negative figure.
abbrev pub change_sign : Change → String
change_sign c = if c.rose then "+" else "-"
