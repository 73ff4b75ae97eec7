-- ===== src/Report/Calls.antt =====
-- What the report service calls outside its own code: Postgres, the file system, the CSV
-- formatter's stream, pdfkit, and the clock with date-fns.
use ai_gcm.Base.{ℕ, String, Bool, List}
use ai_gcm.Js.{Value}
use ai_gcm.Effect.{Prog}
use ai_gcm.Effect.Run.{Env}
use ai_gcm.Sql.{Sql}

-- The numbers of a PDF report are the database's texts read by parseFloat and parseInt.
pub record CostBreakdownRow : Type 0 where
  pub label : Value
  pub request_count : Value
  pub total_tokens : Value
  pub cost_usd : Value

pub record PdfTotals : Type 0 where
  pub total_cost : Value
  pub total_requests : Value
  pub total_tokens : Value
  pub cache_hits : Value

pub record PdfSource : Type 0 where
  pub org_name : Value
  pub period_start : String
  pub period_end : String
  pub totals : PdfTotals
  pub rows : List CostBreakdownRow

pub record Period : Type 0 where
  pub period_start : String
  pub period_end : String

pub data Call : Type 0 where
  query client_query : Sql → (params : List Value) → Call
  fetch_rows : (batch_size : ℕ) → Call
  connect release : Call
  -- `formatCsv({ headers }).pipe(output)`.
  open_csv : (headers : Bool) → Call
  write_row : Value → Call
  end_stream : Call
  render_pdf : PdfSource → (file_path : String) → Call
  open_file : (file_path : String) → Call
  file_size : (file_path : String) → Call
  file_exists : Value → Call
  last_month : Call

abbrev pub Answer : Call → Type 0
Answer (query sql params) = List Value
Answer (client_query sql params) = Unit
Answer (fetch_rows n) = List Value
Answer connect = Unit
Answer release = Unit
Answer (open_csv headers) = Unit
Answer (write_row row) = Unit
Answer end_stream = Unit
Answer (render_pdf source path) = Unit
Answer (open_file path) = Unit
Answer (file_size path) = ℕ
Answer (file_exists path) = Bool
Answer last_month = Period

abbrev pub Report : Type 0 → Type 0
Report = Prog Call Answer

abbrev pub ReportEnv : Type 0
ReportEnv = Env Call Answer
