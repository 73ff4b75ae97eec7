-- ===== src/Report/Pdf/Tests.antt =====
-- The texts of a PDF report with one row.
use ai_gcm.Base.{ℕ, ◌+◌, ◌-◌, ◌*◌, ◌/◌, ◌≡◌, List, [], ◌∷◌, leb, if◌then◌else◌}
use ai_gcm.Effect.{ok}
use ai_gcm.Effect.Run.{run}
use ai_gcm.Report.Pdf.{Doubles, Call, Answer, read_y, read_page_width, read_page_height, ReportData}
use ai_gcm.Report.Pdf.Body.{render_pdf}
use ai_gcm.Report.Pdf.Texts.{Reads, shown, report_texts, render_pdf-shows}

-- Whole numbers, each written as one text.
abbrev wholes : Doubles ℕ
wholes = record {
  dec = λ n scale. n;
  add = λ a b. a + b;
  sub = λ a b. a - b;
  mul = λ a b. a * b;
  div = λ a b. a / b;
  max = λ a b. if leb a b then b else a;
  round = λ a. a;
  at_least = λ a b. leb b a;
  to_fixed = λ a n. "1";
  to_locale_string = λ a. "1";
}

abbrev one_row : ReportData ℕ
one_row = record {
  org_name = "Acme";
  period_start = "2026-01-01";
  period_end = "2026-01-31";
  total_cost_usd = 1;
  total_requests = 1;
  total_tokens = 1;
  cache_hit_rate = 1;
  rows =
      record { label = "openai"; request_count = 1; total_tokens = 1; cost_usd = 1; pct = 1 } ∷ [];
  generated_at = "2026-02-01T00:00:00Z";
}

-- A page of 595 by 842.
abbrev paper : List (Call ℕ) → (c : Call ℕ) → Answer c
paper h read_y = 100
paper h read_page_width = 595
paper h read_page_height = 842
paper h _ = tt

render_pdf-shows_example :
    ((run (λ h c. ok (paper h c)) [] (render_pdf wholes (λ t. t) one_row)).0 ≡ ok tt)
    × Reads wholes
        (report_texts wholes (λ t. t) one_row)
        (shown (run (λ h c. ok (paper h c)) [] (render_pdf wholes (λ t. t) one_row)).1 [])
render_pdf-shows_example = render_pdf-shows wholes (λ t. t) one_row paper
