-- ===== src/Report/Csv/Batches.antt =====
-- The batches of the export, against the rows of its cursor
-- (services/report-service/src/renderer/csv.ts).
use mathlib.Core.Path.{ap₂}
use mathlib.Core.List.{append-nil, append_assoc}
use ai_gcm.Base.{
  ℕ, zero, suc, ◌+◌, ◌<◌, ◌≡◌, ◌≢◌, refl, sym, ap, ◌∙◌, inl, inr, Bool-cases, List, [], ◌∷◌, ◌++◌,
  length, take, drop, take-append-drop, drop_of_short, length-drop, ltb, ltb→lt, nat_eq, arith,
  true, false,
}
use ai_gcm.Js.{Value}
use ai_gcm.Effect.{Result, ok, ok-ne-err, ok-injective}
use ai_gcm.Effect.Post.{Post, Post-await, Post-bind}
use ai_gcm.Report.Calls.{Call, fetch_rows, write_row, Report, ReportEnv}
use ai_gcm.Report.Csv.{write_rows, finish_batch, copy_batch, copy_batches}

-- The rows of the cursor that no FETCH has taken yet.
abbrev pub left : List Value → List Call → List Value
left all [] = all
left all (fetch_rows n ∷ h) = drop n (left all h)
left all (_ ∷ h) = left all h

-- The rows written to the stream, in order.
abbrev pub written : List Call → List Value
written [] = []
written (write_row row ∷ h) = written h ++ row ∷ []
written (_ ∷ h) = written h

-- FETCH n gives the next n rows of the cursor, or those that are left; the stream takes each row.
pub record IsCursor (env : ReportEnv) (all : List Value) : Type 0 where
  pub fetches : (h : List Call) (n : ℕ) → env h (fetch_rows n) ≡ ok (take n (left all h))
  pub writes : (h : List Call) (row : Value) → env h (write_row row) ≡ ok tt

zero_of : (n : ℕ) → nat_eq n 0 ≡ true → n ≡ 0
zero_of n h = ground arith

take-nil : {A : Type 0} (n : ℕ) (xs : List A) → 0 < n → length (take n xs) ≡ 0 → xs ≡ []
take-nil zero xs pos e = absurd (omega arith)
take-nil (suc n) [] pos e = refl
take-nil (suc n) (x ∷ xs) pos e = absurd (omega arith)

pub taken : {A : Type 0} (n : ℕ) (xs : List A) → nat_eq (length (take n xs)) 0 ≡ false → xs ≢ []
taken zero [] h e = cc
taken (suc n) [] h e = cc
taken n (x ∷ xs) h e = cc

pub shorter : {A : Type 0} (n : ℕ) (xs : List A) → 0 < n → xs ≢ [] → length (drop n xs) < length xs
shorter zero xs pos some' = absurd (omega arith)
shorter (suc n) [] pos some' = absurd (some' refl)
shorter (suc n) (x ∷ xs) pos some' = omega (arith, length-drop n xs)

module _ (env : ReportEnv) (all : List Value) (cursor : IsCursor env all) where
  -- The count goes up by the rows, which are written in order, and the cursor is where it ought
  -- to be.
  pub record Copied (h : List Call) (count : ℕ) (rows rest : List Value) (r : Result ℕ)
      (h' : List Call) : Type 0 where
    pub counted : r ≡ ok (count + length rows)
    pub wrote : written h' ≡ written h ++ rows
    pub remains : left all h' ≡ rest

  write_rows-Copied :
      (rows : List Value) (h : List Call) (count : ℕ)
      → Post env (Copied h count rows (left all h)) h (write_rows count rows)
  unfolding write_rows
  write_rows-Copied [] h count = record {
    counted = ap ok (omega arith);
    wrote = sym (append-nil _);
    remains = refl;
  }
  write_rows-Copied (row ∷ rows) h count =
      Post-await env (Copied h count (row ∷ rows) (left all h)) h (write_row row)
        (λ _. write_rows (count + 1) rows)
        (λ _ _.
          let after = write_rows-Copied rows (write_row row ∷ h) (count + 1) in
          record {
            counted = after.counted ∙ ap ok (omega arith);
            wrote = after.wrote ∙ append_assoc (written h) (row ∷ []) rows;
            remains = after.remains;
          })
        (λ e failed. ok-ne-err (cursor.writes h row) failed)

  module _ (n : ℕ) (h : List Call) (count : ℕ) (again : ℕ → Report ℕ) where
    abbrev Wanted : Result ℕ → List Call → Type 0
    Wanted = Copied h count (left all h) []

    -- After a full batch the loop goes on with the rows that are left.
    finish-Wanted :
        (h₁ : List Call) (c : ℕ)
        → Copied (fetch_rows n ∷ h) count (take n (left all h)) (drop n (left all h)) (ok c) h₁
        → ((h' : List Call) (c' : ℕ)
            → left all h' ≡ drop n (left all h)
            → Post env (Copied h' c' (left all h') []) h' (again c'))
        → Post env Wanted h₁ (finish_batch n (take n (left all h)) again c)
    unfolding finish_batch
    finish-Wanted h₁ c done' next = elim (Bool-cases (ltb (length (take n (left all h))) n)) [
      | inl short ↦
          let none_left = drop_of_short n (left all h) (ltb→lt _ n short) in
          let whole : take n (left all h) ≡ left all h =
            sym (append-nil _)
            ∙ ap (λ l. take n (left all h) ++ l) (sym none_left)
            ∙ take-append-drop n (left all h) in
          rw short (record {
            counted = done'.counted ∙ ap (λ l. ok (count + length l)) whole;
            wrote = done'.wrote ∙ ap (λ l. written h ++ l) whole;
            remains = done'.remains ∙ none_left;
          })
      | inr full ↦
          let after = next h₁ c done'.remains in
          rw full (record {
            counted =
                after.counted
                ∙ ap ok (
                    omega (
                      arith,
                      ok-injective done'.counted,
                      ap length done'.remains,
                      length-drop n (left all h),
                    ));
            wrote =
                after.wrote
                ∙ ap₂ (λ a b. a ++ b) done'.wrote done'.remains
                ∙ append_assoc (written h) _ _
                ∙ ap (λ l. written h ++ l) (take-append-drop n (left all h));
            remains = after.remains;
          })
    ]

    copy_batch-Wanted :
        0 < n
        → ((h' : List Call) (c' : ℕ)
            → left all h' ≡ drop n (left all h)
            → left all h ≢ []
            → Post env (Copied h' c' (left all h') []) h' (again c'))
        → Post env Wanted (fetch_rows n ∷ h) (copy_batch n (take n (left all h)) again count)
    unfolding copy_batch
    copy_batch-Wanted pos next = elim (Bool-cases (nat_eq (length (take n (left all h))) 0)) [
      | inl nothing ↦
          let empty : left all h ≡ [] = take-nil n (left all h) pos (zero_of _ nothing) in
          rw nothing (record {
            counted = ap ok (omega (arith, ap length empty));
            wrote = sym (append-nil (written h)) ∙ ap (λ l. written h ++ l) (sym empty);
            remains = drop_of_short n (left all h) (omega (arith, zero_of _ nothing));
          })
      | inr some' ↦ rw some' (
          Post-bind env
            (Copied (fetch_rows n ∷ h) count (take n (left all h)) (drop n (left all h))) Wanted
            (fetch_rows n ∷ h) (write_rows count (take n (left all h)))
            (finish_batch n (take n (left all h)) again)
            (write_rows-Copied (take n (left all h)) (fetch_rows n ∷ h) count)
            (λ c h₁ p. finish-Wanted h₁ c p (λ h' c' e. next h' c' e (taken n _ some')))
            (λ e h₁ p. ok-ne-err p.counted refl))
    ]

  pub copy_batches-Copied :
      (n fuel : ℕ) (h : List Call) (count : ℕ)
      → 0 < n
      → length (left all h) < fuel
      → Post env (Copied h count (left all h) []) h (copy_batches n fuel count)
  unfolding copy_batches
  copy_batches-Copied n zero h count pos enough = absurd (omega arith)
  copy_batches-Copied n (suc fuel) h count pos enough =
      Post-await env (Copied h count (left all h) []) h (fetch_rows n)
        (λ rows. copy_batch n rows (copy_batches n fuel) count)
        (λ rows p. rw (ok-injective (sym p ∙ cursor.fetches h n)) (
          copy_batch-Wanted n h count (copy_batches n fuel) pos (λ h' c' e some'.
            copy_batches-Copied n fuel h' c' pos
              (omega (arith, ap length e, shorter n (left all h) pos some')))))
        (λ e failed. ok-ne-err (cursor.fetches h n) failed)
