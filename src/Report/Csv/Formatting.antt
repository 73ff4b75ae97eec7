-- ===== src/Report/Csv/Formatting.antt =====
-- How the formatter of an export was opened (services/report-service/src/renderer/csv.ts).
use ai_gcm.Base.{
  ℕ, suc, zero, ◌+◌, ◌≡◌, refl, String, Bool, true, Option, none, some, List, [], ◌∷◌, ltb, nat_eq,
  length,
}
use ai_gcm.Js.{Value, Fields, end, field, obj}
use ai_gcm.Effect.{throw, await, catch, finally, ◌>>◌}
use ai_gcm.Effect.Keeps.{
  Keeps, Keeps-done, Keeps-throw, Keeps-if, Keeps-await, Keeps-returned, Keeps-bind, Keeps-catch,
  Keeps-finally,
}
use ai_gcm.Effect.Run.{run}
use ai_gcm.Report.Calls.{
  Call, fetch_rows, connect, release, open_csv, write_row, end_stream, ReportEnv,
}
use ai_gcm.Report.Csv.{
  CsvExportOptions, header_row, batch_size, begin, commit, rollback, declare_cursor, export_where,
  write_rows, finish_batch, copy_batch, copy_batches, copy_steps, stream_csv, out_of_fuel,
}

abbrev pub names_of : Fields → List String
names_of end = []
names_of (field k v fs) = k ∷ names_of fs

-- The names of the fields of an object.
abbrev pub names : Value → List String
names (obj fs) = names_of fs
names _ = []

-- The option of the formatter that was opened last.
abbrev pub headers_of : List Call → Option Bool
headers_of [] = none
headers_of (open_csv b ∷ h) = some b
headers_of (_ ∷ h) = headers_of h

abbrev Opened : List Call → Type 0
Opened h = headers_of h ≡ some true

module _ {env : ReportEnv} where
  Opened-write_rows : (rows : List Value) (count : ℕ) → Keeps env Opened (write_rows count rows)
  unfolding write_rows
  Opened-write_rows [] count = Keeps-done count
  Opened-write_rows (row ∷ rows) count =
      Keeps-bind _ _ (Keeps-await (write_row row) (λ h p. p))
        (λ _. Opened-write_rows rows (count + 1))

  Opened-copy_batches : (n fuel count : ℕ) → Keeps env Opened (copy_batches n fuel count)
  unfolding copy_batches copy_batch finish_batch
  Opened-copy_batches n zero count = Keeps-throw out_of_fuel
  Opened-copy_batches n (suc fuel) count =
      Keeps-bind _ _ (Keeps-await (fetch_rows n) (λ h p. p)) (λ rows.
        Keeps-if (nat_eq (length rows) 0) _ _ (Keeps-done count) (
          Keeps-bind _ _ (Opened-write_rows rows count) (λ c.
            Keeps-if (ltb (length rows) n) _ _ (Keeps-done c) (Opened-copy_batches n fuel c))))

  Opened-copy_steps : (fuel : ℕ) (o : CsvExportOptions) → Keeps env Opened (copy_steps fuel o)
  unfolding copy_steps
  Opened-copy_steps fuel o = Keeps-bind _ _ (Keeps-await begin (λ h p. p)) (λ _.
      Keeps-bind _ _ (Keeps-await (declare_cursor (export_where o)) (λ h p. p)) (λ _.
        Keeps-bind _ _ (Opened-copy_batches batch_size fuel 0)
          (λ count. Keeps-bind _ _ (Keeps-await commit (λ h p. p)) (λ _. Keeps-done count))))

  Opened-guarded :
      (fuel : ℕ) (o : CsvExportOptions)
      → Keeps env Opened
          (finally (catch (copy_steps fuel o) (λ e. await rollback >> throw e)) (await release))
  Opened-guarded fuel o =
      Keeps-finally _ _
        (Keeps-catch _ _ (Opened-copy_steps fuel o)
          (λ e. Keeps-bind _ _ (Keeps-await rollback (λ h p. p)) (λ _. Keeps-throw e)))
        (Keeps-await release (λ h p. p))

-- What an export does after it has opened the formatter keeps it.
pub stream-Opened :
    (env : ReportEnv) (fuel : ℕ) (o : CsvExportOptions) (h : List Call)
    → headers_of (run env h (stream_csv fuel o)).1 ≡ some true
unfolding stream_csv
stream-Opened env fuel o h =
    let kept =
      Keeps-bind {env = env} {P = Opened} _ _ (Keeps-returned (env h (open_csv true))) (λ _.
        Keeps-bind _ _ (Keeps-await (write_row header_row) (λ h p. p)) (λ _.
          Keeps-bind _ _ (Keeps-await connect (λ h p. p)) (λ _.
            Keeps-bind _ _ (Opened-guarded fuel o) (λ count.
              Keeps-bind _ _ (Keeps-await end_stream (λ h p. p)) (λ _. Keeps-done count))))) in
    kept.at (open_csv true ∷ h) refl
