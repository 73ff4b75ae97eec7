-- ===== src/Report/Csv.antt =====
-- The CSV export (services/report-service/src/renderer/csv.ts).
pub mod Batches
pub mod Formatting
pub mod Export
pub mod Ending
pub mod Fuel
pub mod Statement
use Prim.Native.String.{◌++◌ as ◌<>◌}
use ai_gcm.Base.{
  ℕ, zero, suc, ◌+◌, String, Bool, true, Option, none, some, List, [], ◌∷◌, ◌++◌, map, length, ltb,
  nat_eq, ◌==◌, if◌then◌else◌,
}
use ai_gcm.Js.{Value, str, object}
use ai_gcm.Effect.{Error, Prog, done, throw, plain, await, catch, finally, ◌>>=◌, ◌>>◌}
use ai_gcm.Sql.{Sql, text, param, join_and}
use ai_gcm.Report.Calls.{
  Call, client_query, fetch_rows, connect, release, open_csv, write_row, end_stream, Report,
}

pub record CsvExportOptions : Type 0 where
  pub org_id : String
  pub period_start : String
  pub period_end : String
  pub team_id : Option String
  pub user_id : Option String
  pub provider : Option String

abbrev pub csv_headers : List String
csv_headers =
    "request_id" ∷ "created_at" ∷ "org_id" ∷ "user_id" ∷ "team_id" ∷ "provider" ∷ "model"
    ∷ "prompt_tokens" ∷ "completion_tokens" ∷ "total_tokens" ∷ "cost_usd" ∷ "latency_ms" ∷ "status"
    ∷ "dlp_violation" ∷ "policy_blocked" ∷ "cache_hit" ∷ []

-- `Object.fromEntries(CSV_HEADERS.map(h => [h, h]))`.
abbrev pub header_row : Value
header_row = object (map (λ h. (h, str h)) csv_headers)

-- `conditions` and `params`; the next placeholder is `params.length + 1`.
pub record Where : Type 0 where
  pub conditions : List Sql
  pub params : List Value

abbrev pub start_of : String → String
start_of day = day <> " 00:00:00"

abbrev pub end_of : String → String
end_of day = day <> " 23:59:59"

abbrev pub period_where : CsvExportOptions → Where
period_where o = record {
  conditions =
      (text "org_id = $" ∷ param 1 ∷ [])
      ∷ (text "created_at >= $" ∷ param 2 ∷ [])
      ∷ (text "created_at <= $" ∷ param 3 ∷ [])
      ∷ [];
  params = str o.org_id ∷ str (start_of o.period_start) ∷ str (end_of o.period_end) ∷ [];
}

unfoldable pub add_condition : String → String → Where → Where
add_condition column value w = record {
  conditions = w.conditions ++ (text column ∷ param (length w.params + 1) ∷ []) ∷ [];
  params = w.params ++ str value ∷ [];
}

-- `if (value) …`: an absent or empty text adds nothing.
unfoldable pub add_given : String → Option String → Where → Where
unfolding add_condition
add_given column none w = w
add_given column (some value) w = if value == "" then w else add_condition column value w

unfoldable pub export_where : CsvExportOptions → Where
unfolding add_given
export_where o =
    add_given "provider = $" o.provider
      (add_given "user_id = $" o.user_id (add_given "team_id = $" o.team_id (period_where o)))

abbrev pub declare_cursor : Where → Call
declare_cursor w =
    client_query
      (text
            "DECLARE csv_cursor CURSOR FOR SELECT request_id, created_at, org_id::text, user_id::text, team_id::text, provider, model, prompt_tokens, completion_tokens, (prompt_tokens + completion_tokens) AS total_tokens, cost_usd, latency_ms, status, dlp_violation, policy_blocked, cache_hit FROM usage_events WHERE "
          ∷ join_and w.conditions
        ++ text " ORDER BY created_at ASC" ∷ [])
      w.params

abbrev pub batch_size : ℕ
batch_size = 1000

-- The inner loop: each row is written and counted.
pub write_rows : ℕ → List Value → Report ℕ
write_rows count [] = done count
write_rows count (row ∷ rows) = await (write_row row) >> write_rows (count + 1) rows

abbrev pub out_of_fuel : Error
out_of_fuel = plain "out of fuel"

-- What a round does once its rows are written: a short batch is the last one.
pub finish_batch : ℕ → List Value → (ℕ → Report ℕ) → ℕ → Report ℕ
finish_batch n rows again count = if ltb (length rows) n then done count else again count

-- A round of the loop, on the rows fetched.
pub copy_batch : ℕ → List Value → (ℕ → Report ℕ) → ℕ → Report ℕ
unfolding write_rows finish_batch
copy_batch n rows again count =
    if nat_eq (length rows) 0
    then done count
    else write_rows count rows >>= finish_batch n rows again

-- The `while (true)` loop over batches of `n` rows; the fuel bounds its rounds.
pub copy_batches : ℕ → ℕ → ℕ → Report ℕ
unfolding copy_batch
copy_batches n zero count = throw out_of_fuel
copy_batches n (suc fuel) count =
    await (fetch_rows n) >>= λ rows. copy_batch n rows (copy_batches n fuel) count

abbrev pub begin : Call
begin = client_query (text "BEGIN" ∷ []) []

abbrev pub commit : Call
commit = client_query (text "COMMIT" ∷ []) []

abbrev pub rollback : Call
rollback = client_query (text "ROLLBACK" ∷ []) []

-- The body of the `try` block: the rows of the cursor, in one transaction.
pub copy_steps : ℕ → CsvExportOptions → Report ℕ
unfolding export_where
copy_steps fuel o = do
  await begin
  await (declare_cursor (export_where o))
  count ← copy_batches batch_size fuel 0
  await commit
  done count

unfoldable pub stream_csv : (fuel : ℕ) → CsvExportOptions → Report ℕ
unfolding copy_steps copy_batches write_rows
stream_csv fuel o = do
  await (open_csv true)
  await (write_row header_row)
  await connect
  count ← finally (catch (copy_steps fuel o) (λ e. do await rollback; throw e)) (await release)
  await end_stream
  done count
