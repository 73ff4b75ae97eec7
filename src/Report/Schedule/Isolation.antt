-- ===== src/Report/Schedule/Isolation.antt =====
-- One organisation's failure does not touch the others
-- (services/report-service/src/scheduler/cron.ts).
use ai_gcm.Base.{ℕ, String, ◌≡◌, refl, ap, ◌∙◌, List, [], ◌∷◌}
use ai_gcm.Js.{Value}
use ai_gcm.Effect.{Error, Result, ok, err, done, ◌>>=◌}
use ai_gcm.Effect.Run.{run, continue, run-bind}
use ai_gcm.Effect.Post.{recover, run-catch}
use ai_gcm.Report.Calls.{Period, Call, ReportEnv}
use ai_gcm.Report.Generate.{generate_report}
use ai_gcm.Report.Schedule.{monthly_options, attempt, generate_all}

module _ (env : ReportEnv) (show : Error → String) (fuel : ℕ) (dir : String) (p : Period) where
  -- The history after one generation for each organisation, in order, whatever each comes to.
  abbrev pub each_in_turn : List Call → List Value → List Call
  each_in_turn h [] = h
  each_in_turn h (org ∷ orgs) =
      each_in_turn (run env h (generate_report show fuel dir (monthly_options p org))).1 orgs

  caught :
      (r : Result Value) (h : List Call)
      → recover env (λ e. done tt) (continue env (λ id. done tt) (r, h)) ≡ (ok tt, h)
  caught (ok id) h = refl
  caught (err e) h = refl

  attempt-eq :
      (h : List Call) (org : Value)
      → run env h (attempt show fuel dir p org)
        ≡ (ok tt, (run env h (generate_report show fuel dir (monthly_options p org))).1)
  unfolding attempt
  attempt-eq h org =
      let m = generate_report show fuel dir (monthly_options p org) in
      run-catch env h (m >>= λ id. done tt) (λ e. done tt)
      ∙ ap (recover env (λ e. done tt)) (run-bind env h m (λ id. done tt))
      ∙ caught _ _

-- The batch never throws, and its calls are those of one generation for each organisation, in the
-- order of the rows: a report that fails neither stops nor repeats nor skips another.
pub generate_all-eq :
    (env : ReportEnv) (show : Error → String) (fuel : ℕ) (dir : String) (p : Period)
    (orgs : List Value) (h : List Call)
    → run env h (generate_all show fuel dir p orgs)
      ≡ (ok tt, each_in_turn env show fuel dir p h orgs)
unfolding generate_all
generate_all-eq env show fuel dir p [] h = refl
generate_all-eq env show fuel dir p (org ∷ orgs) h =
    run-bind env h (attempt show fuel dir p org) (λ _. generate_all show fuel dir p orgs)
    ∙ ap (continue env (λ _. generate_all show fuel dir p orgs))
        (attempt-eq env show fuel dir p h org)
    ∙ generate_all-eq env show fuel dir p orgs _
