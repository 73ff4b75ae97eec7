-- ===== src/Web/CostPage/Window.antt =====
-- The days that the cost page shows (apps/web/src/app/(dashboard)/cost/page.tsx).
use ai_gcm.Base.{
  ℕ, zero, suc, ◌≤◌, ◌+◌, ◌-◌, ◌≡◌, ◌≢◌, ◌⊎◌, refl, inl, inr, String, Bool-cases, List, [], ◌∷◌,
  ◌++◌, length, take, take-append-drop, length-drop, ltb, ◌==◌, eq_iff, if◌then◌else◌, arith, ap,
}
use ai_gcm.Web.CostPage.{DailyCost, slice_last, sliced}

-- The days shown are the last ones, and how many they are.
pub record Window (range : String) (days : List DailyCost) (shown : List DailyCost) : Type 0 where
  pub earlier : List DailyCost
  pub latest : earlier ++ shown ≡ days
  pub size :
      ((range ≡ "Last 7 Days") × (length shown ≡ (if ltb (length days) 7 then length days else 7)))
      ⊎ ((range ≢ "Last 7 Days") × (shown ≡ days))

length-take : {A : Type 0} (n : ℕ) (xs : List A) → n ≤ length xs → length (take n xs) ≡ n
length-take zero xs short = refl
length-take (suc n) [] short = absurd (omega arith)
length-take (suc n) (x ∷ xs) short = ap suc (length-take n xs (omega arith))

last-size :
    (days : List DailyCost)
    → length (slice_last 7 days) ≡ (if ltb (length days) 7 then length days else 7)
last-size days =
    let whole : length (take (length days - 7) days) + length (slice_last 7 days) ≡ length days =
      length-drop (length days - 7) days in
    let cut : length (take (length days - 7) days) ≡ length days - 7 =
      length-take (length days - 7) days (omega arith) in
    ground (arith, whole, cut)

-- Whatever range is chosen, the days shown are the latest ones of the list: seven of them, or all
-- if there are fewer, for the range of seven days, and all of them for each other range, the last
-- fourteen days, the month and the last thirty days alike.
pub sliced-Window : (range : String) (days : List DailyCost) → Window range days (sliced range days)
unfolding sliced
sliced-Window range days = elim (Bool-cases (range == "Last 7 Days")) [
  | inl same ↦ rw same (record {
    earlier = take (length days - 7) days;
    latest = take-append-drop (length days - 7) days;
    size = inl ((eq_iff range "Last 7 Days").0 same, last-size days);
  })
  | inr apart ↦ rw apart (record {
    earlier = [];
    latest = refl;
    size = inr ((λ e. cc (apart, (eq_iff range "Last 7 Days").1 e)), refl);
  })
]
