-- ===== src/Report/Generate.antt =====
-- Generating a report (services/report-service/src/index.ts): the record of a report goes from
-- pending to generating, and then to ready or failed.
pub mod Ending
use Prim.Native.String.{◌++◌ as ◌<>◌}
use ai_gcm.Base.{ℕ, String, Bool, Option, none, some, List, [], ◌∷◌, ◌++◌, map, ◌==◌, if◌then◌else◌}
use ai_gcm.Js.{Value, str, nat, get, or_else, as_string}
use ai_gcm.Effect.{Error, Prog, done, throw, plain, await, catch, ◌>>=◌, ◌>>◌}
use ai_gcm.Sql.{text, param}
use ai_gcm.Report.Calls.{
  CostBreakdownRow, PdfTotals, PdfSource, Call, query, render_pdf, open_file, file_size, Report,
}
use ai_gcm.Report.Csv.{CsvExportOptions, stream_csv, start_of, end_of}

pub data ReportType : Type 0 where
  monthly_cost usage_breakdown team_allocation : ReportType

pub data Format : Type 0 where
  pdf csv : Format

abbrev pub report_type_text : ReportType → String
report_type_text monthly_cost = "monthly_cost"
report_type_text usage_breakdown = "usage_breakdown"
report_type_text team_allocation = "team_allocation"

abbrev pub format_text : Format → String
format_text pdf = "pdf"
format_text csv = "csv"

pub record GenerateReportOptions : Type 0 where
  pub org_id : String
  pub org_name : Option String
  pub report_type : ReportType
  pub format : Format
  pub period_start : String
  pub period_end : String
  pub requested_by : Option String
  pub team_id : Option String
  pub user_id : Option String
  pub provider : Option String

-- `v ?? null` for a text that may be absent.
abbrev pub or_null : Option String → Value
or_null none = Value.null
or_null (some s) = str s

abbrev pub insert_call : GenerateReportOptions → Call
insert_call o =
    query
      (text
          "INSERT INTO generated_reports (org_id, requested_by, report_type, format, status, period_start, period_end) VALUES ($"
        ∷ param 1
        ∷ text ",$"
        ∷ param 2
        ∷ text ",$"
        ∷ param 3
        ∷ text ",$"
        ∷ param 4
        ∷ text ",'pending',$"
        ∷ param 5
        ∷ text ",$"
        ∷ param 6
        ∷ text ") RETURNING id"
        ∷ [])
      (str o.org_id
        ∷ or_null o.requested_by
        ∷ str (report_type_text o.report_type)
        ∷ str (format_text o.format)
        ∷ str o.period_start
        ∷ str o.period_end
        ∷ [])

abbrev pub mark_generating : Value → Call
mark_generating id =
    query (text "UPDATE generated_reports SET status='generating' WHERE id=$" ∷ param 1 ∷ [])
      (id ∷ [])

abbrev pub mark_ready : (file_path : String) → (size : ℕ) → Value → Call
mark_ready file_path size id =
    query
      (text "UPDATE generated_reports SET status='ready', file_path=$"
        ∷ param 1
        ∷ text ", file_size_bytes=$"
        ∷ param 2
        ∷ text ", completed_at=NOW() WHERE id=$"
        ∷ param 3
        ∷ [])
      (str file_path ∷ nat size ∷ id ∷ [])

abbrev pub mark_failed : (message : String) → Value → Call
mark_failed message id =
    query
      (text "UPDATE generated_reports SET status='failed', error_message=$"
        ∷ param 1
        ∷ text " WHERE id=$"
        ∷ param 2
        ∷ [])
      (str message ∷ id ∷ [])

abbrev pub period_params : GenerateReportOptions → List Value
period_params o = str o.org_id ∷ str (start_of o.period_start) ∷ str (end_of o.period_end) ∷ []

abbrev pub breakdown_call : GenerateReportOptions → Call
breakdown_call o =
    query
      (text
          "SELECT COALESCE(team_id::text, provider) AS label, COUNT(*)::text AS request_count, SUM(prompt_tokens + completion_tokens)::text AS total_tokens, SUM(cost_usd)::text AS cost_usd FROM usage_events WHERE org_id = $"
        ∷ param 1
        ∷ text " AND created_at BETWEEN $"
        ∷ param 2
        ∷ text " AND $"
        ∷ param 3
        ∷ text " GROUP BY label ORDER BY SUM(cost_usd) DESC LIMIT 20"
        ∷ [])
      (period_params o)

abbrev pub totals_call : GenerateReportOptions → Call
totals_call o =
    query
      (text
          "SELECT SUM(cost_usd)::text AS total_cost, COUNT(*)::text AS total_requests, SUM(prompt_tokens + completion_tokens)::text AS total_tokens, SUM(CASE WHEN cache_hit THEN 1 ELSE 0 END)::text AS cache_hits FROM usage_events WHERE org_id = $"
        ∷ param 1
        ∷ text " AND created_at BETWEEN $"
        ∷ param 2
        ∷ text " AND $"
        ∷ param 3
        ∷ [])
      (period_params o)

-- The texts that the totals of the report are read from; the readings are pdfkit's input.
abbrev pub totals_of : List Value → PdfTotals
totals_of [] = record {
  total_cost = str "0";
  total_requests = str "0";
  total_tokens = str "0";
  cache_hits = str "0";
}
totals_of (row ∷ rows) = record {
  total_cost = or_else (get row "total_cost") (str "0");
  total_requests = or_else (get row "total_requests") (str "0");
  total_tokens = or_else (get row "total_tokens") (str "0");
  cache_hits = or_else (get row "cache_hits") (str "0");
}

abbrev pub breakdown_row : Value → CostBreakdownRow
breakdown_row r = record {
  label = get r "label";
  request_count = get r "request_count";
  total_tokens = or_else (get r "total_tokens") (str "0");
  cost_usd = get r "cost_usd";
}

abbrev pub org_name_of : GenerateReportOptions → Value
org_name_of o = elim o.org_name [ none ↦ str o.org_id | some name ↦ str name ]

pub generate_pdf : GenerateReportOptions → String → Report (Unit {0})
generate_pdf o file_path = do
  rows ← await (breakdown_call o)
  totals ← await (totals_call o)
  await (open_file file_path)
  await (
      render_pdf
        (record {
          org_name = org_name_of o;
          period_start = o.period_start;
          period_end = o.period_end;
          totals = totals_of totals;
          rows = map breakdown_row rows;
        })
        file_path)

abbrev pub csv_options : GenerateReportOptions → CsvExportOptions
csv_options o = record {
  org_id = o.org_id;
  period_start = o.period_start;
  period_end = o.period_end;
  team_id = o.team_id;
  user_id = o.user_id;
  provider = o.provider;
}

pub generate_csv : ℕ → GenerateReportOptions → String → Report (Unit {0})
unfolding stream_csv
generate_csv fuel o file_path = do
  await (open_file file_path)
  stream_csv fuel (csv_options o) >>= λ count. done tt

pub render : ℕ → GenerateReportOptions → Format → String → Report (Unit {0})
unfolding generate_pdf generate_csv
render fuel o pdf file_path = generate_pdf o file_path
render fuel o csv file_path = generate_csv fuel o file_path

-- The text of an id in a template literal; ids are UUIDs, which the driver gives as texts.
abbrev pub id_text : Value → String
id_text (str s) = s
id_text _ = ""

abbrev pub file_path_of : (reports_dir : String) → Value → Format → String
file_path_of dir id format = dir <> ("/" <> (id_text id <> ("." <> format_text format)))

-- The body of the `try` block: the file, then the mark.
pub produce : ℕ → GenerateReportOptions → String → Value → Report (Unit {0})
unfolding render
produce fuel o file_path id = do
  render fuel o o.format file_path
  size ← await (file_size file_path)
  await (mark_ready file_path size id) >>= λ rows. done tt

pub report_failure : (Error → String) → Value → Error → Report (Unit {0})
report_failure show id e = do await (mark_failed (show e) id); throw e

-- `const { rows: [rec] } = …; rec.id`, which throws without a row.
abbrev pub inserted_id : List Value → Report Value
inserted_id [] = throw (plain "Cannot read properties of undefined")
inserted_id (row ∷ rows) = done (get row "id")

-- The steps after the record is inserted.
pub generate_inserted : (Error → String) → ℕ → String → GenerateReportOptions → Value → Report Value
unfolding produce report_failure
generate_inserted show fuel dir o id = do
  await (mark_generating id)
  catch (produce fuel o (file_path_of dir id o.format) id) (report_failure show id)
  done id

-- `show` is `String(err)`.
unfoldable pub generate_report :
    (show : Error → String)
    → (fuel : ℕ) → (reports_dir : String) → GenerateReportOptions
    → Report Value
unfolding generate_inserted
generate_report show fuel dir o = do
  rows ← await (insert_call o)
  id ← inserted_id rows
  generate_inserted show fuel dir o id
