-- ===== src/Report/Generate/Ending.antt =====
-- In which state generation leaves its record (services/report-service/src/index.ts).
use ai_gcm.Base.{ℕ, String, ◌≡◌, ◌≢◌, refl, ◌⊎◌, inl, inr, List, [], ◌∷◌}
use ai_gcm.Js.{Value, get}
use ai_gcm.Effect.{Error, Result, ok, err, done, throw, catch}
use ai_gcm.Effect.Post.{Post, Post-await, Post-bind, Post-catch, Anything}
use ai_gcm.Report.Calls.{Call, file_size, ReportEnv}
use ai_gcm.Report.Generate.{
  GenerateReportOptions, insert_call, mark_generating, mark_ready, mark_failed, render,
  file_path_of, produce, report_failure, generate_inserted, generate_report,
}

-- How the history of a generation ends. `id` is the id of the record.
abbrev pub Ended : (Error → String) → Value → Result Value → List Call → Type 0
Ended show id (ok v) h =
    (v ≡ id)
    × ((path : String) × (size : ℕ) × (before : List Call) × (h ≡ mark_ready path size id ∷ before))
Ended show id (err e) h =
    ((before : List Call) × (h ≡ mark_generating id ∷ before))
    ⊎ ((e' : Error) × (before : List Call) × (h ≡ mark_failed (show e') id ∷ before))

-- The same, with the case that there is no record.
abbrev pub Generated :
    ReportEnv
    → (Error → String)
    → List Call
    → GenerateReportOptions
    → Result Value
    → List Call
    → Type 0
Generated env show h o r h' =
    ((h' ≡ insert_call o ∷ h) × ((v : Value) → r ≢ ok v))
    ⊎ ((row : Value) × (rows : List Value) × (env h (insert_call o) ≡ ok (row ∷ rows))
        × Ended show (get row "id") r h')

module _ (env : ReportEnv) (show : Error → String) (fuel : ℕ) (dir : String)
    (o : GenerateReportOptions) (id : Value) where
  abbrev Made : Result (Unit {0}) → List Call → Type 0
  Made (ok x) h =
      (path : String) × (size : ℕ) × (before : List Call) × (h ≡ mark_ready path size id ∷ before)
  Made (err e) h = Unit

  abbrev Marked : Result (Unit {0}) → List Call → Type 0
  Marked (ok x) h =
      (path : String) × (size : ℕ) × (before : List Call) × (h ≡ mark_ready path size id ∷ before)
  Marked (err e) h = (e' : Error) × (before : List Call) × (h ≡ mark_failed (show e') id ∷ before)

  produce-Made : (h : List Call) (path : String) → Post env Made h (produce fuel o path id)
  unfolding produce
  produce-Made h path =
      Post-bind env Anything Made h (render fuel o o.format path) _ tt
        (λ _ h' _.
          Post-await env Made h' (file_size path) _
            (λ size _.
              Post-await env Made (file_size path ∷ h') (mark_ready path size id) (λ _. done tt)
                (λ _ _. (path, size, _, refl)) (λ _ _. tt))
            (λ _ _. tt))
        (λ _ _ _. tt)

  failure-Marked : (h : List Call) (e : Error) → Post env Marked h (report_failure show id e)
  unfolding report_failure
  failure-Marked h e =
      Post-await env Marked h (mark_failed (show e) id) (λ _. throw e) (λ _ _. (e, h, refl))
        (λ _ _. (e, h, refl))

  inserted-Ended :
      (h : List Call) → Post env (Ended show id) h (generate_inserted show fuel dir o id)
  unfolding generate_inserted
  inserted-Ended h =
      let path : String = file_path_of dir id o.format in
      Post-await env (Ended show id) h (mark_generating id) _
        (λ _ _.
          Post-bind env Marked (Ended show id) (mark_generating id ∷ h)
            (catch (produce fuel o path id) (report_failure show id)) (λ _. done id)
            (Post-catch env Made Marked (mark_generating id ∷ h) (produce fuel o path id)
              (report_failure show id) (produce-Made _ path) (λ _ _ p. p)
              (λ e h' _. failure-Marked h' e))
            (λ _ _ p. (refl, p)) (λ _ _ p. inr p))
        (λ _ _. inl (h, refl))

-- A generation that returns has last marked the record that it inserted as ready; one that throws
-- has last marked that record as failed, unless no record was inserted or the mark `generating`
-- itself failed.
pub generate-Generated :
    (env : ReportEnv) (show : Error → String) (fuel : ℕ) (dir : String) (o : GenerateReportOptions)
    (h : List Call)
    → Post env (Generated env show h o) h (generate_report show fuel dir o)
unfolding generate_report
generate-Generated env show fuel dir o h =
    Post-await env (Generated env show h o) h (insert_call o) _
      (elim [
        | [] ↦ λ p. inl (refl, λ v e. cc)
        | row ∷ rows ↦ λ p.
            inr
              (row, rows, p, inserted-Ended env show fuel dir o (get row "id") (insert_call o ∷ h))
      ])
      (λ e _. inl (refl, λ v p. cc))
