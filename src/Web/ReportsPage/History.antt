-- ===== src/Web/ReportsPage/History.antt =====
-- The history of the report page, read forward (apps/web/src/app/(dashboard)/reports/page.tsx).
use mathlib.Core.List.{reverse, reverse-cons, append_assoc, append-nil}
use ai_gcm.Base.{◌≡◌, refl, sym, ap, ◌∙◌, Option, none, some, List, [], ◌∷◌, ◌++◌}
use ai_gcm.Web.ReportsPage.{MonthSummary, Change, change_from, rows_of, history}

-- Each month with its change from the month before it; the first one, with none.
abbrev change_since : Option MonthSummary → MonthSummary → Option Change
change_since none m = none
change_since (some prev) m = some (change_from prev m)

abbrev pub since : Option MonthSummary → List MonthSummary → List (MonthSummary × Option Change)
since before [] = []
since before (m ∷ ms) = (m, change_since before m) ∷ since (some m) ms

first : List MonthSummary → Option MonthSummary
first [] = none
first (m ∷ ms) = some m

rows_of-cons :
    (m : MonthSummary) (tail : List MonthSummary)
    → rows_of (m ∷ tail) ≡ (m, change_since (first tail) m) ∷ rows_of tail
unfolding first
rows_of-cons m [] = refl
rows_of-cons m (prev ∷ tail) = refl

-- Later months stand before the rows of the earlier ones.
rows_of-later :
    (ms tail : List MonthSummary)
    → rows_of (reverse ms ++ tail) ≡ reverse (since (first tail) ms) ++ rows_of tail
unfolding first
rows_of-later [] tail = refl
rows_of-later (m ∷ ms) tail =
    let entry : MonthSummary × Option Change = (m, change_since (first tail) m) in
    rw
      (
        reverse-cons m ms,
        append_assoc (reverse ms) (m ∷ []) tail,
        rows_of-later ms (m ∷ tail),
        rows_of-cons m tail,
      )
      (rw
        (
          reverse-cons entry (since (some m) ms),
          append_assoc (reverse (since (some m) ms)) (entry ∷ []) (rows_of tail),
        )
        refl)

-- The history, which the page reads backward through a reversed copy, lists the months from the
-- last to the first, each with its change from the month before it, and the first with none.
pub history-eq : (months : List MonthSummary) → history months ≡ reverse (since none months)
unfolding history first
history-eq months =
    sym (ap rows_of (append-nil (reverse months)))
    ∙ (rows_of-later months [] ∙ append-nil (reverse (since none months)))
