-- ===== src/Report/Schedule.antt =====
-- The monthly batch (services/report-service/src/scheduler/cron.ts). The timer is node-cron's and
-- the log lines are left out; `last_month` stands for date-fns' reading of the clock.
pub mod Isolation
use ai_gcm.Base.{ℕ, String, none, some, List, [], ◌∷◌}
use ai_gcm.Js.{Value, get, as_string, str}
use ai_gcm.Effect.{Error, Result, Prog, done, await, catch, ◌>>=◌, ◌>>◌}
use ai_gcm.Sql.{text}
use ai_gcm.Report.Calls.{Period, Call, query, last_month, Report}
use ai_gcm.Report.Generate.{GenerateReportOptions, monthly_cost, pdf, id_text, generate_report}

abbrev pub select_orgs : Call
select_orgs =
    query (text "SELECT id, name, billing_email FROM organizations WHERE is_active = TRUE" ∷ []) []

-- The options of the report of one organisation.
abbrev pub monthly_options : Period → Value → GenerateReportOptions
monthly_options p org = record {
  org_id = id_text (get org "id");
  org_name = as_string (get org "name");
  report_type = monthly_cost;
  format = pdf;
  period_start = p.period_start;
  period_end = p.period_end;
  requested_by = none;
  team_id = none;
  user_id = none;
  provider = none;
}

module _ (show : Error → String) (fuel : ℕ) (dir : String) where
  -- `try { await generateReport(…) } catch { … }` for one organisation.
  pub attempt : Period → Value → Report (Unit {0})
  unfolding generate_report
  attempt p org =
      catch (generate_report show fuel dir (monthly_options p org) >>= λ id. done tt) (λ e. done tt)

  pub generate_all : Period → List Value → Report (Unit {0})
  unfolding attempt
  generate_all p [] = done tt
  generate_all p (org ∷ orgs) = attempt p org >> generate_all p orgs

  -- The job that fires on the first of the month.
  unfoldable pub monthly_job : Report (Unit {0})
  unfolding generate_all
  monthly_job = do p ← await last_month; catch (await select_orgs >>= generate_all p) (λ e. done tt)
