-- ===== src/Report/Tests.antt =====
-- The theorems of the report service at concrete exports and requests.
use ai_gcm.Base.{
  String, ◌≡◌, refl, sym, Bool, true, false, ◌==◌, if◌then◌else◌, none, some, List, [], ◌∷◌, map,
  take, arith,
}
use ai_gcm.Js.{Value, str, get, object}
use ai_gcm.Report.Csv.Formatting.{names}
use ai_gcm.Zod.{Zod, success}
use ai_gcm.Sql.{Sql, text}
use ai_gcm.Effect.{Error, ok, err, plain, ok-injective}
use ai_gcm.Effect.Run.{run}
use ai_gcm.Effect.Post.{Post}
use ai_gcm.Report.Calls.{
  query, client_query, fetch_rows, connect, release, open_csv, write_row, end_stream, render_pdf,
  open_file, file_size, file_exists, last_month, Period, ReportEnv,
}
use ai_gcm.Report.Csv.{CsvExportOptions, stream_csv, export_where}
use ai_gcm.Report.Csv.Batches.{left}
use ai_gcm.Report.Csv.Export.{Serves, Exported, export_complete}
use ai_gcm.Report.Csv.Ending.{Ended, export-Ended}
use ai_gcm.Report.Csv.Fuel.{IsFinite, export_ends}
use ai_gcm.Report.Csv.Statement.{IsNumberedWhere, export_where-IsNumberedWhere}
use ai_gcm.Report.Generate.{GenerateReportOptions, monthly_cost, csv, generate_report}
use ai_gcm.Report.Generate.Ending.{Generated, generate-Generated}
use ai_gcm.Report.Schedule.{generate_all}
use ai_gcm.Report.Schedule.Isolation.{each_in_turn, generate_all-eq}
use ai_gcm.Report.Server.{post_generate}
use ai_gcm.Report.Server.Replies.{Replied, post_generate-Replied}

abbrev january : Period
january = record { period_start = "2026-01-01"; period_end = "2026-01-31" }

abbrev record_row : Value
record_row = object (("id", str "report") ∷ [])

-- A service whose calls succeed, over the rows of one cursor.
abbrev up : List Value → ReportEnv
up all h (query sql params) = ok (record_row ∷ [])
up all h (client_query sql params) = ok tt
up all h (fetch_rows n) = ok (take n (left all h))
up all h connect = ok tt
up all h release = ok tt
up all h (open_csv headers) = ok tt
up all h (write_row row) = ok tt
up all h end_stream = ok tt
up all h (render_pdf source path) = ok tt
up all h (open_file path) = ok tt
up all h (file_size path) = ok 10
up all h (file_exists path) = ok true
up all h last_month = ok january

up-Serves : (all : List Value) → Serves (up all) all
up-Serves all = record {
  cursor = record { fetches = λ h n. refl; writes = λ h row. refl };
  others = λ h. elim [
    | query sql params ↦ λ _. (_, refl)
    | client_query sql params ↦ λ _. (_, refl)
    | fetch_rows n ↦ λ x. elim x [ ]
    | connect ↦ λ _. (_, refl)
    | release ↦ λ _. (_, refl)
    | open_csv headers ↦ λ _. (_, refl)
    | write_row row ↦ λ x. elim x [ ]
    | end_stream ↦ λ _. (_, refl)
    | render_pdf source path ↦ λ _. (_, refl)
    | open_file path ↦ λ _. (_, refl)
    | file_size path ↦ λ _. (_, refl)
    | file_exists path ↦ λ _. (_, refl)
    | last_month ↦ λ _. (_, refl)
  ];
}

abbrev two_rows : List Value
two_rows = object (("request_id", str "r1") ∷ []) ∷ object (("request_id", str "r2") ∷ []) ∷ []

abbrev options : CsvExportOptions
options = record {
  org_id = "org";
  period_start = "2026-01-01";
  period_end = "2026-01-31";
  team_id = none;
  user_id = some "ada";
  provider = some "openai";
}

-- The lines of a file whose columns are the names of the first row's fields.
abbrev csv_lines : Bool → List Value → List (List Value)
csv_lines headers [] = []
csv_lines false (row ∷ rows) = map (λ r. map (get r) (names row)) (row ∷ rows)
csv_lines true (row ∷ rows) = map str (names row) ∷ map (λ r. map (get r) (names row)) (row ∷ rows)

export_complete_example :
    Post (up two_rows) (Exported csv_lines [] two_rows) [] (stream_csv 3 options)
export_complete_example =
    export_complete (up two_rows) csv_lines two_rows 3 options []
      (record { discovers = λ row rows. refl }) (up-Serves two_rows) refl (omega arith)

export_where-IsNumberedWhere_example : IsNumberedWhere "org" (export_where options)
export_where-IsNumberedWhere_example = export_where-IsNumberedWhere options

abbrev request : GenerateReportOptions
request = record {
  org_id = "org";
  org_name = none;
  report_type = monthly_cost;
  format = csv;
  period_start = "2026-01-01";
  period_end = "2026-01-31";
  requested_by = none;
  team_id = none;
  user_id = none;
  provider = none;
}

abbrev message_of : Error → String
message_of e = e.message

generate-Generated_example :
    Post
      (up two_rows)
      (Generated (up two_rows) message_of [] request)
      []
      (generate_report message_of 3 "/tmp" request)
generate-Generated_example = generate-Generated (up two_rows) message_of 3 "/tmp" request []

abbrev orgs : List Value
orgs = object (("id", str "org") ∷ []) ∷ object (("id", str "other") ∷ []) ∷ []

generate_all-eq_example :
    run (up two_rows) [] (generate_all message_of 3 "/tmp" january orgs)
    ≡ (ok tt, each_in_turn (up two_rows) message_of 3 "/tmp" january [] orgs)
generate_all-eq_example = generate_all-eq (up two_rows) message_of 3 "/tmp" january orgs []

-- A validation that accepts everything.
abbrev lenient : Zod
lenient schema v = success v

abbrev body : Value
body = object (("orgId", str "org") ∷ ("format", str "csv") ∷ [])

post_generate-Replied_example :
    Post (up two_rows) Replied [] (post_generate message_of 3 "/tmp" lenient body)
post_generate-Replied_example =
    post_generate-Replied (up two_rows) message_of 3 "/tmp" lenient body []

export-Ended_example :
    Ended []
      (run (up two_rows) [] (stream_csv 3 options)).0
      (run (up two_rows) [] (stream_csv 3 options)).1
export-Ended_example = export-Ended (up two_rows) 3 options [] (λ h'. refl)

abbrev ends : Sql → Bool
ends (text s ∷ []) = s == "COMMIT"
ends sql = false

-- The same installation, whose COMMIT fails.
abbrev no_commit : List Value → ReportEnv
no_commit all h (client_query sql params) = if ends sql then err (plain "no") else ok tt
no_commit all h c = up all h c

no_commit-IsFinite : (all : List Value) → IsFinite (no_commit all) all
no_commit-IsFinite all = record { fetched = λ h n rows e. sym (ok-injective e) }

export_ends_example :
    run (no_commit two_rows) [] (stream_csv 3 options)
    ≡ run (no_commit two_rows) [] (stream_csv 90 options)
export_ends_example =
    export_ends (no_commit two_rows) two_rows 3 90 options [] (no_commit-IsFinite two_rows)
      (omega arith) (omega arith)
