-- ===== src/Report/Server/Replies.antt =====
-- What the reply to a request for a report says (services/report-service/src/index.ts).
use ai_gcm.Base.{ℕ, String, ◌≡◌, refl, ◌⊎◌, inl, inr, List, ◌∷◌}
use ai_gcm.Js.{Value, get, str}
use ai_gcm.Effect.{Error, Result, ok, err}
use ai_gcm.Effect.Post.{Post, Post-bind, Post-catch}
use ai_gcm.Zod.{Zod, Parsed, success, failure}
use ai_gcm.Http.{Response}
use ai_gcm.Report.Calls.{Call, ReportEnv}
use ai_gcm.Report.Generate.{GenerateReportOptions, mark_ready, generate_report}
use ai_gcm.Report.Generate.Ending.{Generated, generate-Generated}
use ai_gcm.Report.Server.{options_of, accepted, generate_steps, generate_parsed, post_generate}

-- The reply is 202, says that the report is generating and gives an id; the record with that id
-- has last been marked as ready.
pub record IsReady (r : Response) (h : List Call) : Type 0 where
  pub id : Value
  pub path : String
  pub size : ℕ
  pub before : List Call
  pub marked : h ≡ mark_ready path size id ∷ before
  pub status : r.status ≡ 202
  pub report_id : get r.body "report_id" ≡ id
  pub generating : get r.body "status" ≡ str "generating"

-- 202 for a report that is ready, 400 for an invalid request, 500 for one that failed; no throw.
abbrev pub Replied : Result Response → List Call → Type 0
Replied (ok r) h = IsReady r h ⊎ ((r.status ≡ 400) ⊎ (r.status ≡ 500))
Replied (err e) h = ⊥

abbrev Stepped : Result Response → List Call → Type 0
Stepped (ok r) h = IsReady r h
Stepped (err e) h = Unit

accepted-Stepped :
    (env : ReportEnv) (show : Error → String) (h h' : List Call) (o : GenerateReportOptions)
    (v : Value)
    → Generated env show h o (ok v) h'
    → Stepped (ok (accepted v)) h'
accepted-Stepped env show h h' o v (inl (e, never)) = absurd (never v refl)
accepted-Stepped env show h h' o v (inr (row, rows, p, (same, (path, size, before, e)))) = record {
  id = v;
  path = path;
  size = size;
  before = before;
  marked = rw same e;
  status = refl;
  report_id = refl;
  generating = refl;
}

parsed-Replied :
    (env : ReportEnv) (show : Error → String) (fuel : ℕ) (dir : String) (p : Parsed) (h : List Call)
    → Post env Replied h (generate_parsed show fuel dir p)
unfolding generate_parsed generate_steps
parsed-Replied env show fuel dir (failure details) h = inr (inl refl)
parsed-Replied env show fuel dir (success d) h =
    let o = options_of d in
    Post-catch env Stepped Replied h (generate_steps show fuel dir o) _
      (Post-bind env (Generated env show h o) Stepped h (generate_report show fuel dir o) _
        (generate-Generated env show fuel dir o h) (λ v h' p. accepted-Stepped env show h h' o v p)
        (λ _ _ _. tt))
      (λ _ _ ready. inl ready) (λ _ _ _. inr (inr refl))

-- A request for a report never ends in an exception. Its reply is 400, or 500, or it is 202 with
-- the status "generating" and the id of a record, and then the last query of the history has
-- marked that very record as ready.
pub post_generate-Replied :
    (env : ReportEnv) (show : Error → String) (fuel : ℕ) (dir : String) (zod : Zod) (body : Value)
    (h : List Call)
    → Post env Replied h (post_generate show fuel dir zod body)
unfolding post_generate
post_generate-Replied env show fuel dir zod body h = parsed-Replied env show fuel dir _ h
