-- ===== src/Report/Server.antt =====
-- The routes (services/report-service/src/index.ts).
pub mod Replies
use Prim.Native.String.{◌++◌ as ◌<>◌}
use ai_gcm.Base.{
  ℕ, String, Bool, true, false, Option, none, some, List, [], ◌∷◌, not, ◌==◌, if◌then◌else◌,
}
use ai_gcm.Js.{Value, Number, num, str, get, truthy, object, is_undefined, items, nat}
use ai_gcm.Js.ParseInt.{parse_int}
use ai_gcm.Effect.{Error, Prog, done, await, catch, ◌>>=◌, ◌>>◌}
use ai_gcm.Zod.{
  Zod, Schema, Shape, Parsed, success, failure, regex, uuid, string, enum, optional, nullable,
  defaulted, prop,
}
use ai_gcm.Http.{Response, reply, error_reply}
use ai_gcm.Sql.{text, param}
use ai_gcm.Report.Calls.{Call, query, file_exists, Report}
use ai_gcm.Report.Generate.{
  ReportType, monthly_cost, usage_breakdown, team_allocation, Format, pdf, csv,
  GenerateReportOptions, generate_report, id_text,
}

abbrev date : Schema
date = string (regex "^\\d{4}-\\d{2}-\\d{2}$" ∷ [])

abbrev any_uuid : Schema
any_uuid = string (uuid ∷ [])

abbrev pub generate_report_schema : Schema
generate_report_schema = Schema.object (
    prop "orgId" any_uuid (
      prop "orgName" (optional (string [])) (
        prop "reportType"
          (defaulted (enum ("monthly_cost" ∷ "usage_breakdown" ∷ "team_allocation" ∷ []))
            (str "monthly_cost"))
          (prop "format" (defaulted (enum ("pdf" ∷ "csv" ∷ [])) (str "pdf")) (
            prop "periodStart" date (
              prop "periodEnd" date (
                prop "requestedBy" (optional (nullable any_uuid)) (
                  prop "teamId" (optional any_uuid) (
                    prop "userId" (optional any_uuid)
                      (prop "provider" (optional (string [])) Shape.nil))))))))))

-- The parsed value as options: the schema leaves only these texts.
abbrev pub report_type_of : Value → ReportType
report_type_of (str s) =
    if s == "usage_breakdown"
    then usage_breakdown
    else if s == "team_allocation"
    then team_allocation
    else monthly_cost
report_type_of _ = monthly_cost

abbrev pub format_of : Value → Format
format_of (str s) = if s == "csv" then csv else pdf
format_of _ = pdf

abbrev pub options_of : Value → GenerateReportOptions
options_of d = record {
  org_id = id_text (get d "orgId");
  org_name = ai_gcm.Js.as_string (get d "orgName");
  report_type = report_type_of (get d "reportType");
  format = format_of (get d "format");
  period_start = id_text (get d "periodStart");
  period_end = id_text (get d "periodEnd");
  requested_by = ai_gcm.Js.as_string (get d "requestedBy");
  team_id = ai_gcm.Js.as_string (get d "teamId");
  user_id = ai_gcm.Js.as_string (get d "userId");
  provider = ai_gcm.Js.as_string (get d "provider");
}

abbrev pub accepted : Value → Response
accepted id = reply 202 (object (("report_id", id) ∷ ("status", str "generating") ∷ []))

abbrev pub generation_failed : String → Response
generation_failed message =
    reply 500 (object (("error", str "generation_failed") ∷ ("message", str message) ∷ []))

abbrev pub invalid : Value → Response
invalid details = reply 400 (object (("error", str "validation_error") ∷ ("details", details) ∷ []))

module _ (show : Error → String) (fuel : ℕ) (dir : String) where
  pub generate_steps : GenerateReportOptions → Report Response
  unfolding generate_report
  generate_steps o = do id ← generate_report show fuel dir o; done (accepted id)

  pub generate_parsed : Parsed → Report Response
  unfolding generate_steps
  generate_parsed (failure details) = done (invalid details)
  generate_parsed (success d) =
      catch (generate_steps (options_of d)) (λ e. done (generation_failed (show e)))

  -- POST /reports/generate.
  unfoldable pub post_generate : Zod → (body : Value) → Report Response
  unfolding generate_parsed
  post_generate zod body = generate_parsed (zod generate_report_schema body)

abbrev pub defaulted_to : Value → String → Value
defaulted_to v fallback = if is_undefined v then str fallback else v

abbrev pub list_call : Value → Call
list_call q =
    query
      (text
          "SELECT id, report_type, format, status, period_start, period_end, file_size_bytes, row_count, completed_at, created_at FROM generated_reports WHERE org_id = $"
        ∷ param 1
        ∷ text " ORDER BY created_at DESC LIMIT $"
        ∷ param 2
        ∷ text " OFFSET $"
        ∷ param 3
        ∷ [])
      (get q "org_id"
        ∷ num (parse_int (defaulted_to (get q "limit") "20"))
        ∷ num (parse_int (defaulted_to (get q "offset") "0"))
        ∷ [])

-- GET /reports.
unfoldable pub list_reports : Value → Report Response
list_reports q =
    if truthy (get q "org_id")
    then (await (list_call q) >>= λ rows.
        done (reply 200 (object (("reports", Value.arr (items rows)) ∷ []))))
    else done (error_reply 400 "org_id required")

abbrev pub find_call : Value → Call
find_call id =
    query
      (text
          "SELECT file_path, format, status, period_start, period_end, org_id FROM generated_reports WHERE id = $"
        ∷ param 1
        ∷ [])
      (id ∷ [])

-- A reply, and the file that is streamed with its headers.
pub data Served : Type 0 where
  sent : Response → Served
  streamed : (file_path : Value) → (content_type content_disposition : String) → Served

abbrev pub is_text : Value → String → Bool
is_text (str s) t = s == t
is_text _ t = false

abbrev pub content_type_of : Value → String
content_type_of format = if is_text format "pdf" then "application/pdf" else "text/csv"

-- `attachment; filename="report-${period_start}-${period_end}.${format}"`, for the text that
-- `String(v)` gives of a value.
abbrev pub disposition_of : (Value → String) → Value → String
disposition_of text_of report =
    "attachment; filename=\"report-"
    <> (text_of (get report "period_start")
        <> ("-"
            <> (text_of (get report "period_end")
                <> ("." <> (text_of (get report "format") <> "\"")))))

pub serve_file : (Value → String) → Value → Bool → Served
serve_file text_of report false = sent (error_reply 410 "file_expired")
serve_file text_of report true =
    streamed (get report "file_path") (content_type_of (get report "format"))
      (disposition_of text_of report)

pub serve_found : (Value → String) → List Value → Report Served
unfolding serve_file
serve_found text_of [] = done (sent (error_reply 404 "not_found"))
serve_found text_of (report ∷ rows) =
    if not (is_text (get report "status") "ready")
    then done (sent (reply 202 (object (("status", get report "status") ∷ []))))
    else (await (file_exists (get report "file_path")) >>= λ found.
        done (serve_file text_of report found))

-- GET /reports/:id/download. The organisation of the report is not compared with anything.
unfoldable pub download : (Value → String) → (id : Value) → Report Served
unfolding serve_found
download text_of id = do rows ← await (find_call id); serve_found text_of rows

-- GET /health.
abbrev pub health : Response
health = reply 200 (
    object
      (("status", str "ok") ∷ ("service", str "report-service") ∷ ("version", str "2.0.0") ∷ []))
