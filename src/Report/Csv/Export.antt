-- ===== src/Report/Csv/Export.antt =====
-- The whole export (services/report-service/src/renderer/csv.ts).
use mathlib.Core.List.{append_assoc}
use ai_gcm.Base.{
  ℕ, ◌+◌, ◌<◌, ◌≡◌, String, Bool, true, some, map, refl, ap, ◌∙◌, List, [], ◌∷◌, ◌++◌, length,
  arith,
}
use ai_gcm.Js.{Value, str, get}
use ai_gcm.Report.Csv.Formatting.{headers_of, stream-Opened, names}
use ai_gcm.Effect.{Result, ok, err, ok-ne-err, done, throw, await, catch, finally, ◌>>=◌, ◌>>◌}
use ai_gcm.Effect.Post.{Post, Post-await, Post-bind, Post-catch, afterwards, run-finally}
use ai_gcm.Report.Calls.{
  Call, Answer, fetch_rows, connect, release, open_csv, write_row, end_stream, Report, ReportEnv,
}
use ai_gcm.Report.Csv.{
  CsvExportOptions, header_row, batch_size, begin, commit, rollback, declare_cursor, export_where,
  copy_batches, copy_steps, stream_csv,
}
use ai_gcm.Report.Csv.Batches.{left, written, IsCursor, Copied, copy_batches-Copied}

abbrev pub IsOther : Call → Type 0
IsOther (fetch_rows n) = ⊥
IsOther (write_row row) = ⊥
IsOther c = Unit

-- The cursor gives its rows, and no other call fails.
pub record Serves (env : ReportEnv) (all : List Value) : Type 0 where
  pub cursor : IsCursor env all
  pub others : (h : List Call) (c : Call) → IsOther c → (a : Answer c) × (env h c ≡ ok a)

-- What an export returns and what it gives to the formatter.
record Written (h : List Call) (all : List Value) (r : Result ℕ) (h' : List Call) : Type 0 where
  counted : r ≡ ok (length all)
  wrote : written h' ≡ written h ++ header_row ∷ all

module _ (env : ReportEnv) (all : List Value) (up : Serves env all) where
  abbrev Wrote : List Value → Result ℕ → List Call → Type 0
  Wrote rows r h' = (r ≡ ok (length all)) × (written h' ≡ rows)

  other_step :
      {A : Type 0} (Q : Result A → List Call → Type 0) (h : List Call) (c : Call)
      (f : Answer c → Report A)
      → IsOther c
      → ((a : Answer c) → Post env Q (c ∷ h) (f a))
      → Post env Q h (await c >>= f)
  other_step Q h c f other rest =
      Post-await env Q h c f (λ a _. rest a) (λ e failed. ok-ne-err (up.others h c other).1 failed)

  steps-Wrote :
      (fuel : ℕ) (o : CsvExportOptions) (h : List Call)
      → left all h ≡ all
      → length all < fuel
      → Post env (Wrote (written h ++ all)) h (copy_steps fuel o)
  unfolding copy_steps
  steps-Wrote fuel o h fresh enough =
      let Q = Wrote (written h ++ all) in
      other_step Q h begin _ tt λ _.
        other_step Q (begin ∷ h) (declare_cursor (export_where o)) _ tt λ _.
          let h₂ : List Call = declare_cursor (export_where o) ∷ begin ∷ h in
          Post-bind env (Copied env all up.cursor h₂ 0 (left all h₂) []) Q h₂
            (copy_batches batch_size fuel 0) _
            (copy_batches-Copied env all up.cursor batch_size fuel h₂ 0 (omega arith)
              (omega (arith, ap length fresh)))
            (λ count h' p. other_step Q h' commit _ tt (λ _. (
              p.counted ∙ ap (λ l. ok (0 + length l)) fresh ∙ ap ok (omega arith),
              p.wrote ∙ ap (λ l. written h ++ l) fresh,
            )))
            (λ e h' p. ok-ne-err p.counted refl)

  released :
      (rows : List Value) (r : Result ℕ) (h : List Call)
      → Wrote rows r h
      → Wrote rows
          (afterwards env (await release) (r, h)).0
          (afterwards env (await release) (r, h)).1
  released rows (ok count) h p = other_step (Wrote rows) h release (λ _. done count) tt (λ _. p)
  released rows (err e) h p = ok-ne-err p.0 refl

  copied-Wrote :
      (fuel : ℕ) (o : CsvExportOptions) (h : List Call)
      → left all h ≡ all
      → length all < fuel
      → Post env
          (Wrote (written h ++ all))
          h
          (finally (catch (copy_steps fuel o) (λ e. await rollback >> throw e)) (await release))
  copied-Wrote fuel o h fresh enough =
      let rows : List Value = written h ++ all in
      let m : Report ℕ = catch (copy_steps fuel o) (λ e. await rollback >> throw e) in
      rw (run-finally env h m (await release)) (
        released rows _ _ (
          Post-catch env (Wrote rows) (Wrote rows) h (copy_steps fuel o)
            (λ e. await rollback >> throw e) (steps-Wrote fuel o h fresh enough) (λ _ _ p. p)
            (λ e h' p. ok-ne-err p.0 refl)))

  stream-Written :
      (fuel : ℕ) (o : CsvExportOptions) (h : List Call)
      → left all h ≡ all
      → length all < fuel
      → Post env (Written h all) h (stream_csv fuel o)
  unfolding stream_csv
  stream-Written fuel o h fresh enough =
      let Q = Written h all in
      let h₁ : List Call = open_csv true ∷ h in
      let h₂ : List Call = connect ∷ write_row header_row ∷ h₁ in
      other_step Q h (open_csv true) _ tt λ _.
        Post-await env Q h₁ (write_row header_row) _
          (λ _ _. other_step Q (write_row header_row ∷ h₁) connect _ tt λ _.
            Post-bind env (Wrote (written h₂ ++ all)) Q h₂
              (finally (catch (copy_steps fuel o) (λ e. await rollback >> throw e)) (await release))
              _ (copied-Wrote fuel o h₂ fresh enough)
              (λ count h' p.
                other_step Q h' end_stream (λ _. done count) tt
                  (λ _. record {
                    counted = p.0;
                    wrote = p.1 ∙ append_assoc (written h) (header_row ∷ []) all;
                  }))
              (λ e h' p. ok-ne-err p.0 refl))
          (λ e failed. ok-ne-err (up.cursor.writes h₁ header_row) failed)

-- The names of the columns.
abbrev pub columns : List String
columns =
    "request_id" ∷ "created_at" ∷ "org_id" ∷ "user_id" ∷ "team_id" ∷ "provider" ∷ "model"
    ∷ "prompt_tokens" ∷ "completion_tokens" ∷ "total_tokens" ∷ "cost_usd" ∷ "latency_ms" ∷ "status"
    ∷ "dlp_violation" ∷ "policy_blocked" ∷ "cache_hit" ∷ []

-- fast-csv's documented behaviour for rows that are objects: with `headers: true` the columns are
-- the names of the first row's fields, and a line of them comes before the line of each row.
-- `lines` gives the cells of the lines for the option and the rows.
pub record IsFastCsv (lines : Bool → List Value → List (List Value)) : Type 0 where
  pub discovers :
      (row : Value) (rows : List Value)
      → lines true (row ∷ rows)
        ≡ map str (names row) ∷ map (λ r. map (get r) (names row)) (row ∷ rows)

-- What an export returns, the rows that it gives to the formatter, how that was opened, and the
-- lines of the file.
pub record Exported (lines : Bool → List Value → List (List Value)) (h : List Call)
    (all : List Value) (r : Result ℕ) (h' : List Call) : Type 0 where
  pub counted : r ≡ ok (length all)
  pub headers : Bool
  pub opened : headers_of h' ≡ some headers
  pub rows : List Value
  pub wrote : written h' ≡ written h ++ rows
  pub file :
      lines headers rows
      ≡ map str columns ∷ map str columns ∷ map (λ row. map (get row) columns) all

-- When no call fails, the cursor gives `all` and nothing was fetched before, the file of an export
-- has the line of the sixteen names of the columns, the same line once more, and then the line of
-- every row exactly once and in order, whatever their number, and the export returns the number of
-- rows; as many rounds as rows plus one are enough for its loop. The first line is the one that
-- fast-csv, as documented, writes for the option `headers: true`, the second one the header row.
pub export_complete :
    (env : ReportEnv) (lines : Bool → List Value → List (List Value)) (all : List Value) (fuel : ℕ)
    (o : CsvExportOptions) (h : List Call)
    → IsFastCsv lines
    → Serves env all
    → left all h ≡ all
    → length all < fuel
    → Post env (Exported lines h all) h (stream_csv fuel o)
export_complete env lines all fuel o h fast_csv up fresh enough =
    let w = stream-Written env all up fuel o h fresh enough in
    record {
      counted = w.counted;
      headers = true;
      opened = stream-Opened env fuel o h;
      rows = header_row ∷ all;
      wrote = w.wrote;
      file = fast_csv.discovers header_row all;
    }
