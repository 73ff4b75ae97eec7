-- ===== src/Gateway/Tenancy.antt =====
-- What it means that a call of the gateway is held to one organisation, and the routes together
-- (services/api-gateway/src/routes/alerts.ts, audit.ts, budgets.ts, keys.ts, reports.ts).
pub mod Scoped
use Prim.Native.Nat.{zero, suc}
use Prim.Native.String.{◌++◌ as ◌<>◌}
use ai_gcm.Base.{ℕ, String, ◌≡◌, ◌⊎◌, Option, none, some, List, [], ◌∷◌, ◌++◌}
use ai_gcm.Js.{Value, get, object}
use ai_gcm.Zod.{Zod}
use ai_gcm.Http.{Response}
use ai_gcm.Sql.{Sql, text, param}
use ai_gcm.Gateway.Calls.{Call, query, fetch, FetchRequest, Gateway, User}
use ai_gcm.Gateway.Alerts.{get_alerts, acknowledge, acknowledge_all, summary}
use ai_gcm.Gateway.Audit.{get_audit, get_event, verify_chain}
use ai_gcm.Gateway.Budgets.{list_budgets, create_budget, get_budget, delete_budget}
use ai_gcm.Gateway.Keys.{list_keys, create_key, get_key, rotate_key, delete_key}
use ai_gcm.Gateway.Reports.{list_reports, generate_report}

-- The value that is bound to `$n`.
abbrev pub bound_to : ℕ → List Value → Option Value
bound_to n [] = none
bound_to zero (v ∷ vs) = none
bound_to (suc zero) (v ∷ vs) = some v
bound_to (suc (suc n)) (v ∷ vs) = bound_to (suc n) vs

-- The statement compares the column org_id with the organisation.
pub record Compares (org_id : Value) (sql : Sql) (params : List Value) : Type 0 where
  pub before : Sql
  pub column : String
  pub number : ℕ
  pub after : Sql
  pub stands : sql ≡ before ++ text (column <> "org_id = $") ∷ param number ∷ after
  pub bound : bound_to number params ≡ some org_id

-- The statement inserts a row whose first column is org_id, with the organisation there.
pub record Inserts (org_id : Value) (sql : Sql) (params : List Value) : Type 0 where
  pub table : String
  pub columns : String
  pub after : Sql
  pub stands : sql ≡ text ("INSERT INTO " <> (table <> (" (org_id, " <> columns))) ∷ param 1 ∷ after
  pub bound : bound_to 1 params ≡ some org_id

-- The request carries the organisation in its query string, its headers or its body.
abbrev pub Carries : Value → FetchRequest → Type 0
Carries org_id r =
    (get (object r.search) "org_id" ≡ org_id)
    ⊎ ((get (object r.headers) "X-Org-ID" ≡ org_id)
        ⊎ ((body : Value) × (r.payload ≡ some body) × (get body "orgId" ≡ org_id)))

abbrev pub HeldTo : Value → Call → Type 0
HeldTo org_id (query sql params) = Compares org_id sql params ⊎ Inserts org_id sql params
HeldTo org_id (fetch request) = Carries org_id request
HeldTo org_id _ = Unit

-- The routes that read or change what belongs to an organisation, with what a request gives.
pub data Route : Type 0 where
  alerts : (request_query : Value) → Route
  alert_acknowledge : (id : Value) → Route
  alert_acknowledge_all : (body : Value) → Route
  alert_summary : Route
  audit : (request_query : Value) → Route
  audit_event : (request_id : Value) → Route
  audit_verify : (q : Value) → Route
  budgets : Route
  budget_create : (body : Value) → Route
  budget_get budget_delete : (id : Value) → Route
  keys : Route
  key_create : (body : Value) → Route
  key_get key_delete : (id : String) → Route
  key_rotate : (id : String) → (body : Value) → Route
  reports : (q : Value) → Route
  report_generate : (body : Value) → Route

-- The addresses of the services behind the gateway.
pub record Services : Type 0 where
  pub audit_url : String
  pub vault_url : String
  pub report_url : String

abbrev pub handle : Zod → Services → User → Route → Gateway Response
handle zod s user (alerts q) = get_alerts zod user q
handle zod s user (alert_acknowledge id) = acknowledge user id
handle zod s user (alert_acknowledge_all body) = acknowledge_all user body
handle zod s user alert_summary = summary user
handle zod s user (audit q) = get_audit zod user q
handle zod s user (audit_event id) = get_event user id
handle zod s user (audit_verify q) = verify_chain s.audit_url user q
handle zod s user budgets = list_budgets user
handle zod s user (budget_create body) = create_budget zod user body
handle zod s user (budget_get id) = get_budget user id
handle zod s user (budget_delete id) = delete_budget user id
handle zod s user keys = list_keys s.vault_url user
handle zod s user (key_create body) = create_key s.vault_url user body
handle zod s user (key_get id) = get_key s.vault_url user id
handle zod s user (key_delete id) = delete_key s.vault_url user id
handle zod s user (key_rotate id body) = rotate_key s.vault_url user id body
handle zod s user (reports q) = list_reports s.report_url user q
handle zod s user (report_generate body) = generate_report s.report_url user body
