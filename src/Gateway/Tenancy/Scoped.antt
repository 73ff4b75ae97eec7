-- ===== src/Gateway/Tenancy/Scoped.antt =====
-- Every call of the routes is held to the organisation of the caller
-- (services/api-gateway/src/routes/alerts.ts, audit.ts, budgets.ts, keys.ts, reports.ts).
use mathlib.Core.List.{append_assoc, append-nil}
use Prim.Native.String.{◌++◌ as ◌<>◌}
use ai_gcm.Base.{
  String, ◌≡◌, refl, sym, ◌∙◌, inl, inr, Bool-cases, List, [], ◌∷◌, ◌++◌, All, nat_eq,
}
use ai_gcm.Js.{Value, get, truthy}
use ai_gcm.Zod.{Zod, Parsed, success, failure}
use ai_gcm.Http.{Response}
use ai_gcm.Effect.{◌>>=◌, await, done}
use ai_gcm.Effect.Run.{run}
use ai_gcm.Effect.Keeps.{Keeps, Keeps-done, Keeps-throw, Keeps-if, Keeps-await, Keeps-bind}
use ai_gcm.Sql.{Sql, text, param, join_from}
use ai_gcm.Sql.Filter.{Filter, where_clause}
use ai_gcm.Sql.Numbering.{IsNumbered}
use ai_gcm.Gateway.Calls.{Call, Answer, fetch, read_json, Fetched, GatewayEnv, User, parsed}
use ai_gcm.Gateway.Alerts.{
  list_alerts, get_alerts, acknowledge, acknowledge_all, acknowledge_all_call, summary,
}
use ai_gcm.Gateway.Alerts.Listing.{alert_filter-IsNumbered}
use ai_gcm.Gateway.Audit.{total_of, list_events, get_audit, get_event, verify_chain, pass_on}
use ai_gcm.Gateway.Audit.Listing.{audit_filter-IsNumbered}
use ai_gcm.Gateway.Budgets.{list_budgets, create_budget, get_budget, delete_budget}
use ai_gcm.Gateway.Keys.{forward, list_keys, create_key, get_key, rotate_key, delete_key, deleted}
use ai_gcm.Gateway.Reports.{list_reports, generate_report}
use ai_gcm.Gateway.Tenancy.{
  Compares, HeldTo, Route, alerts, alert_acknowledge, alert_acknowledge_all, alert_summary, audit,
  audit_event, audit_verify, budgets, budget_create, budget_get, budget_delete, keys, key_create,
  key_get, key_delete, key_rotate, reports, report_generate, Services, handle,
}

-- What `join` puts after the first condition.
tails : List Sql → Sql
tails [] = []
tails (c ∷ cs) = text " AND " ∷ c ++ tails cs

join_from-tails : (sql : Sql) (cs : List Sql) → join_from sql cs ≡ sql ++ tails cs
unfolding tails
join_from-tails sql [] = sym (append-nil sql)
join_from-tails sql (c ∷ cs) =
    join_from-tails (sql ++ (text " AND " ∷ c)) cs ∙ append_assoc sql (text " AND " ∷ c) (tails cs)

-- A statement whose WHERE clause is a filter that starts with the organisation.
filter-Compares :
    {org_id : Value} (before : String) (f : Filter) (page : Sql) (more : List Value)
    → IsNumbered org_id f
    → Compares org_id (text before ∷ (where_clause f ++ page)) (f.params ++ more)
filter-Compares before f page more w = record {
  before = text before ∷ [];
  column = "";
  number = 1;
  after = tails w.rest ++ page;
  stands = rw (w.scoped, join_from-tails) refl;
  bound = rw w.owner refl;
}

abbrev Held : Value → List Call → Type 0
Held org_id h = All (HeldTo org_id) h

module _ {env : GatewayEnv} (org_id : Value) where
  Held-await : (c : Call) → HeldTo org_id c → Keeps env (Held org_id) (await c)
  Held-await c held = Keeps-await c (λ h p. (held, p))

  Held-parsed : (p : Parsed) → Keeps env (Held org_id) (parsed p)
  Held-parsed (success v) = Keeps-done v
  Held-parsed (failure details) = Keeps-throw _

  Held-total_of : (rows : List Value) → Keeps env (Held org_id) (total_of rows)
  Held-total_of [] = Keeps-throw _
  Held-total_of (row ∷ rows) = Keeps-done _

  Held-pass_on : (res : Fetched) → Keeps env (Held org_id) (pass_on res)
  unfolding pass_on
  Held-pass_on res = Keeps-bind _ _ (Held-await (read_json res) tt) (λ body. Keeps-done _)

  Held-deleted : (res : Fetched) → Keeps env (Held org_id) (deleted res)
  unfolding deleted
  Held-deleted res = Keeps-if (nat_eq res.status 204) _ _ (Keeps-done _) (Held-pass_on res)

  -- One call and a reply to what it answers.
  Held-reply :
      (c : Call) (f : Answer c → Response)
      → HeldTo org_id c
      → Keeps env (Held org_id) (await c >>= λ a. done (f a))
  Held-reply c f held = Keeps-bind _ _ (Held-await c held) (λ a. Keeps-done (f a))

  -- A request that is passed on.
  Held-forward :
      (request : _)
      → HeldTo org_id (fetch request)
      → Keeps env (Held org_id) (await (fetch request) >>= pass_on)
  Held-forward request held = Keeps-bind _ _ (Held-await (fetch request) held) Held-pass_on

count-Compares :
    {org_id : Value} (before : String) (f : Filter)
    → IsNumbered org_id f
    → Compares org_id (text before ∷ where_clause f) f.params
count-Compares before f w = record {
  before = text before ∷ [];
  column = "";
  number = 1;
  after = tails w.rest;
  stands = rw (w.scoped, join_from-tails) refl;
  bound = rw w.owner refl;
}

-- The organisation as the first and as the second parameter of a fixed statement.
module _ (org_id : Value) (column : String) (after : Sql) where
  first-Compares :
      (more : List Value)
      → Compares org_id (text (column <> "org_id = $") ∷ param 1 ∷ after) (org_id ∷ more)
  first-Compares more = record {
    before = [];
    column = column;
    number = 1;
    after = after;
    stands = refl;
    bound = refl;
  }

  second-Compares :
      (s : String) (v : Value)
      → Compares org_id
          (text s ∷ param 1 ∷ text (column <> "org_id = $") ∷ param 2 ∷ after)
          (v ∷ org_id ∷ [])
  second-Compares s v = record {
    before = text s ∷ param 1 ∷ [];
    column = column;
    number = 2;
    after = after;
    stands = refl;
    bound = refl;
  }

acknowledge_all-Held :
    (user : User) (severity : Value) → HeldTo user.org_id (acknowledge_all_call user severity)
acknowledge_all-Held user severity = elim (Bool-cases (truthy severity)) [
  | inl given ↦ rw given (
      inl (
        first-Compares user.org_id "UPDATE alert_events SET is_read = TRUE WHERE " _
          (severity ∷ [])))
  | inr missing ↦
      rw missing
        (inl (first-Compares user.org_id "UPDATE alert_events SET is_read = TRUE WHERE " _ []))
]

module _ {env : GatewayEnv} (user : User) where
  list_alerts-Held : (q : Value) → Keeps env (Held user.org_id) (list_alerts user q)
  unfolding list_alerts
  list_alerts-Held q =
      let w = alert_filter-IsNumbered user.org_id q in
      Keeps-bind _ _ (Held-await user.org_id _ (inl (count-Compares _ _ w)))
        (λ counted. Held-reply user.org_id _ _ (inl (filter-Compares _ _ _ _ w)))

  list_events-Held : (q : Value) → Keeps env (Held user.org_id) (list_events user q)
  unfolding list_events
  list_events-Held q =
      let w = audit_filter-IsNumbered user.org_id q in
      Keeps-bind _ _ (Held-await user.org_id _ (inl (count-Compares _ _ w))) (λ counted.
        Keeps-bind _ _ (Held-total_of user.org_id counted)
          (λ total. Held-reply user.org_id _ _ (inl (filter-Compares _ _ _ _ w))))

  handle-Held :
      (zod : Zod) (s : Services) (route : Route)
      → Keeps env (Held user.org_id) (handle zod s user route)
  unfolding get_alerts acknowledge acknowledge_all summary get_audit get_event verify_chain
      list_budgets create_budget get_budget delete_budget list_keys create_key get_key rotate_key
      delete_key forward list_reports generate_report
  handle-Held zod s (alerts q) = Keeps-bind _ _ (Held-parsed user.org_id _) list_alerts-Held
  handle-Held zod s (alert_acknowledge id) = Held-reply user.org_id _ _ (
      inl (
        second-Compares user.org_id " AND " [] "UPDATE alert_events SET is_read = TRUE WHERE id = $"
          id))
  handle-Held zod s (alert_acknowledge_all body) =
      Held-reply user.org_id _ _ (acknowledge_all-Held user (get body "severity"))
  handle-Held zod s alert_summary = Held-reply user.org_id _ _ (
      inl (
        first-Compares user.org_id "SELECT severity, COUNT(*) AS count FROM alert_events WHERE " _
          []))
  handle-Held zod s (audit q) = Keeps-bind _ _ (Held-parsed user.org_id _) list_events-Held
  handle-Held zod s (audit_event id) = Held-reply user.org_id _ _ (
      inl (
        second-Compares user.org_id " AND " _ "SELECT * FROM usage_events WHERE request_id = $" id))
  handle-Held zod s (audit_verify q) = Held-forward user.org_id _ (inl refl)
  handle-Held zod s budgets = Held-reply user.org_id _ _ (
      inl (
        first-Compares user.org_id
          "SELECT b.*, bs.spent_usd, ROUND((bs.spent_usd / b.amount_usd) * 100, 2) AS utilization_pct FROM budgets b LEFT JOIN budget_spend bs ON bs.budget_id = b.id AND bs.period_key = TO_CHAR(NOW(), 'YYYY-MM') WHERE b."
          _ []))
  handle-Held zod s (budget_create body) = Keeps-bind _ _ (Held-parsed user.org_id _) (λ d.
      Held-reply user.org_id _ _ (
        inr (record {
          table = "budgets";
          columns =
              "name, scope_type, scope_id, amount_usd, period, alert_thresholds, hard_limit, rollover, created_by) VALUES ($";
          after = _;
          stands = refl;
          bound = refl;
        })))
  handle-Held zod s (budget_get id) =
      Held-reply user.org_id _ _ (inl (second-Compares user.org_id " AND b." _ _ id))
  handle-Held zod s (budget_delete id) =
      Held-reply user.org_id _ _ (inl (second-Compares user.org_id " AND " _ _ id))
  handle-Held zod s keys = Held-forward user.org_id _ (inr (inl refl))
  handle-Held zod s (key_create body) = Held-forward user.org_id _ (inr (inl refl))
  handle-Held zod s (key_get id) = Held-forward user.org_id _ (inr (inl refl))
  handle-Held zod s (key_delete id) =
      Keeps-bind _ _ (Held-await user.org_id _ (inr (inl refl))) (Held-deleted user.org_id)
  handle-Held zod s (key_rotate id body) = Held-forward user.org_id _ (inr (inl refl))
  handle-Held zod s (reports q) = Held-forward user.org_id _ (inl refl)
  handle-Held zod s (report_generate body) = Held-forward user.org_id _ (inr (inr (_, refl, refl)))

-- Every statement and every request that a route of alerts, audit, budgets, keys or reports (the
-- download of a report apart) sends out is held to the organisation of the caller, whatever the
-- request asks and whatever the calls are answered: a statement compares org_id with it, or
-- inserts a row with it; a request to another service names it.
pub tenant_scoped :
    (env : GatewayEnv) (zod : Zod) (s : Services) (user : User) (route : Route)
    → All (HeldTo user.org_id) (run env [] (handle zod s user route)).1
tenant_scoped env zod s user route = (handle-Held {env = env} user zod s route).at [] tt
