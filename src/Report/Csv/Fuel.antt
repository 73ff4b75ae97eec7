-- ===== src/Report/Csv/Fuel.antt =====
-- The loop of the export ends (services/report-service/src/renderer/csv.ts).
use ai_gcm.Base.{
  true, ℕ, zero, suc, ◌+◌, ◌<◌, ◌≡◌, ◌≢◌, refl, ap, inl, inr, Bool-cases, List, [], ◌∷◌, length,
  take, drop, ltb, nat_eq, arith,
}
use ai_gcm.Js.{Value}
use ai_gcm.Effect.{ok, await, catch, finally, ◌>>◌, throw, done}
use ai_gcm.Effect.Run.{run}
use ai_gcm.Effect.Keeps.{Keeps, Keeps-done, Keeps-await, Keeps-bind}
use ai_gcm.Effect.Same.{same-bind, same-continue, same-await, same-catch, same-finally}
use ai_gcm.Report.Calls.{
  Call, fetch_rows, connect, release, open_csv, write_row, end_stream, Report, ReportEnv,
}
use ai_gcm.Report.Csv.{
  CsvExportOptions, header_row, batch_size, begin, commit, rollback, declare_cursor, export_where,
  write_rows, finish_batch, copy_batch, copy_batches, copy_steps, stream_csv,
}
use ai_gcm.Report.Csv.Batches.{left, taken, shorter}

-- A cursor over finitely many rows: a FETCH that does not fail gives the next rows.
pub record IsFinite (env : ReportEnv) (all : List Value) : Type 0 where
  pub fetched :
      (h : List Call) (n : ℕ) (rows : List Value)
      → env h (fetch_rows n) ≡ ok rows
      → rows ≡ take n (left all h)

module _ (env : ReportEnv) (all : List Value) where
  -- Writing rows does not move the cursor.
  write_rows-left :
      (rest rows : List Value) (count : ℕ)
      → Keeps env (λ h. left all h ≡ rest) (write_rows count rows)
  unfolding write_rows
  write_rows-left rest [] count = Keeps-done count
  write_rows-left rest (row ∷ rows) count =
      Keeps-bind _ _ (Keeps-await (write_row row) (λ h p. p))
        (λ _. write_rows-left rest rows (count + 1))

  finish-same :
      (n : ℕ) (rows : List Value) (again again' : ℕ → Report ℕ) (c : ℕ) (h : List Call)
      → run env h (again c) ≡ run env h (again' c)
      → run env h (finish_batch n rows again c) ≡ run env h (finish_batch n rows again' c)
  unfolding finish_batch
  finish-same n rows again again' c h e = elim (Bool-cases (ltb (length rows) n)) [
    | inl short ↦ rw short refl
    | inr full ↦ rw full e
  ]

  module _ (finite : IsFinite env all) (n : ℕ) (pos : 0 < n) where
    batch-same :
        (h : List Call) (rows : List Value) (again again' : ℕ → Report ℕ) (count : ℕ)
        → rows ≡ take n (left all h)
        → ((c : ℕ) (h' : List Call)
            → left all h' ≡ drop n (left all h)
            → left all h ≢ []
            → run env h' (again c) ≡ run env h' (again' c))
        → run env (fetch_rows n ∷ h) (copy_batch n rows again count)
          ≡ run env (fetch_rows n ∷ h) (copy_batch n rows again' count)
    unfolding copy_batch
    batch-same h rows again again' count e next = elim (Bool-cases (nat_eq (length rows) 0)) [
      | inl nothing ↦ rw nothing refl
      | inr some' ↦ rw some' (
          same-continue env (fetch_rows n ∷ h) (write_rows count rows) (finish_batch n rows again)
            (finish_batch n rows again')
            (λ c _. finish-same n rows again again' c _ (
              next c _
                ((write_rows-left (drop n (left all h)) rows count).at (fetch_rows n ∷ h) refl)
                (taken n (left all h) (rw e at some')))))
    ]

    batches-same :
        (fuel fuel' : ℕ) (h : List Call) (count : ℕ)
        → length (left all h) < fuel
        → length (left all h) < fuel'
        → run env h (copy_batches n fuel count) ≡ run env h (copy_batches n fuel' count)
    unfolding copy_batches
    batches-same zero fuel' h count enough enough' = absurd (omega arith)
    batches-same (suc fuel) zero h count enough enough' = absurd (omega arith)
    batches-same (suc fuel) (suc fuel') h count enough enough' =
        same-await env h (fetch_rows n) _ _ (λ rows known.
          batch-same h rows (copy_batches n fuel) (copy_batches n fuel') count
            (finite.fetched h n rows known)
            (λ c h' e some'.
              let less = shorter n (left all h) pos some' in
              batches-same fuel fuel' h' c (omega (arith, ap length e))
                (omega (arith, ap length e))))

-- The steps with what surrounds them.
abbrev tried : CsvExportOptions → ℕ → Report ℕ
tried o fuel = catch (copy_steps fuel o) (λ e. await rollback >> throw e)

abbrev guarded : CsvExportOptions → ℕ → Report ℕ
guarded o fuel = finally (tried o fuel) (await release)

module _ (env : ReportEnv) (all : List Value) (finite : IsFinite env all)
    (o : CsvExportOptions) where
  steps-same :
      (fuel fuel' : ℕ) (h : List Call)
      → length (left all h) < fuel
      → length (left all h) < fuel'
      → run env h (copy_steps fuel o) ≡ run env h (copy_steps fuel' o)
  unfolding copy_steps
  steps-same fuel fuel' h enough enough' = same-await env h begin _ _ (λ _ _.
      same-await env (begin ∷ h) (declare_cursor (export_where o)) _ _ (λ _ _.
        same-bind env (declare_cursor (export_where o) ∷ begin ∷ h) (copy_batches batch_size fuel 0)
          (copy_batches batch_size fuel' 0) (λ count. await commit >> done count)
          (batches-same env all finite batch_size (omega arith) fuel fuel' _ 0 enough enough')))

  guarded-same :
      (fuel fuel' : ℕ) (h : List Call)
      → length (left all h) < fuel
      → length (left all h) < fuel'
      → run env h (guarded o fuel) ≡ run env h (guarded o fuel')
  guarded-same fuel fuel' h enough enough' =
      same-finally env h (tried o fuel) (tried o fuel') (await release) (
        same-catch env h (copy_steps fuel o) (copy_steps fuel' o) (λ e. await rollback >> throw e)
          (steps-same fuel fuel' h enough enough'))

-- Whatever the calls answer or refuse, an export from a cursor over finitely many rows ends: once
-- the fuel exceeds the number of rows that were not fetched before, more fuel changes neither its
-- outcome nor its calls.
pub export_ends :
    (env : ReportEnv) (all : List Value) (fuel fuel' : ℕ) (o : CsvExportOptions) (h : List Call)
    → IsFinite env all
    → length (left all h) < fuel
    → length (left all h) < fuel'
    → run env h (stream_csv fuel o) ≡ run env h (stream_csv fuel' o)
unfolding stream_csv
export_ends env all fuel fuel' o h finite enough enough' =
    same-await env h (open_csv true) _ _ (λ _ _.
      same-await env (open_csv true ∷ h) (write_row header_row) _ _ (λ _ _.
        same-await env (write_row header_row ∷ open_csv true ∷ h) connect _ _ (λ _ _.
          same-bind env (connect ∷ write_row header_row ∷ open_csv true ∷ h) (guarded o fuel)
            (guarded o fuel') (λ count. await end_stream >> done count)
            (guarded-same env all finite o fuel fuel' _ enough enough'))))
