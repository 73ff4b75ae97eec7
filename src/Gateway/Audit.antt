-- ===== src/Gateway/Audit.antt =====
-- Audit routes (services/api-gateway/src/routes/audit.ts).
pub mod Listing
use Prim.Native.String.{◌++◌ as ◌<>◌}
use ai_gcm.Base.{ℕ, ◌+◌, String, Bool, List, [], ◌∷◌, ◌++◌, none, some, if◌then◌else◌}
use ai_gcm.Js.{Value, Number, nat, num, str, get, object, truthy}
use ai_gcm.Js.ParseInt.{parse_int}
use ai_gcm.Effect.{Prog, done, throw, plain, await, ◌>>=◌, ◌>>◌}
use ai_gcm.Zod.{
  Zod, Schema, min, max, regex, uuid, string, enum, coerced_number, coerced_boolean, optional,
  defaulted, nil, prop,
}
use ai_gcm.Http.{Response, reply, error_reply}
use ai_gcm.Sql.{Sql, text, param}
use ai_gcm.Sql.Filter.{Filter, by_org, push_if, fixed_if, where_clause}
use ai_gcm.Gateway.Calls.{
  Call, query, fetch, read_json, FetchRequest, Fetched, Gateway, User, parsed,
}
use ai_gcm.Gateway.Alerts.{page_params, page_clause, page}

abbrev date : Schema
date = optional (string (regex "^\\d{4}-\\d{2}-\\d{2}$" ∷ []))

abbrev any_uuid : Schema
any_uuid = optional (string (uuid ∷ []))

abbrev pub audit_query_schema : Schema
audit_query_schema = Schema.object (
    prop "start" date (
      prop "end" date (
        prop "user_id" any_uuid (
          prop "team_id" any_uuid (
            prop "provider" (optional (string [])) (
              prop "model" (optional (string [])) (
                prop "status" (optional (enum ("success" ∷ "blocked" ∷ "error" ∷ []))) (
                  prop "dlp_only" (optional coerced_boolean) (
                    prop "limit" (defaulted (coerced_number (min 1 ∷ max 1000 ∷ [])) (nat 100))
                      (prop "offset" (defaulted (coerced_number (min 0 ∷ [])) (nat 0)) nil))))))))))

-- `%${model}%`; the schema gives a text.
abbrev pub like_pattern : Value → Value
like_pattern (str s) = str ("%" <> (s <> "%"))
like_pattern v = v

abbrev push_given : (key before after : String) → Value → Filter → Filter
push_given key before after q = push_if (truthy (get q key)) before after (get q key)

unfoldable pub audit_filter : Value → Value → Filter
unfolding push_if fixed_if
audit_filter org_id q = fixed_if (truthy (get q "dlp_only")) "dlp_violation = TRUE" (
    push_given "status" "status = $" "" q (
      push_if (truthy (get q "model")) "model ILIKE $" "" (like_pattern (get q "model")) (
        push_given "provider" "provider = $" "" q (
          push_given "team_id" "team_id = $" "" q (
            push_given "user_id" "user_id = $" "" q (
              push_given "end" "created_at < ($" "::date + interval '1 day')" q
                (push_given "start" "created_at >= $" "::date" q (by_org org_id))))))))

abbrev pub count_events : Filter → Call
count_events f =
    query (text "SELECT COUNT(*) AS total FROM usage_events WHERE " ∷ where_clause f) f.params

abbrev pub select_events : Value → Filter → Call
select_events q f =
    query
      (text
            "SELECT id, user_id, team_id, provider, model, prompt_tokens, completion_tokens, total_tokens, cost_usd, latency_ms, status, request_id, dlp_violation, policy_blocked, cache_hit, is_batch, created_at FROM usage_events WHERE "
          ∷ where_clause f
        ++ page_clause f)
      (page_params q f)

-- `countResult.rows[0].total`, which throws without a row.
abbrev pub total_of : List Value → Gateway Number
total_of [] = throw (plain "Cannot read properties of undefined")
total_of (row ∷ rows) = done (parse_int (get row "total"))

unfoldable pub list_events : User → Value → Gateway Response
list_events user q = do
  let f = audit_filter user.org_id q
  counted ← await (count_events f)
  total ← total_of counted
  rows ← await (select_events q f)
  done (page q total rows)

-- GET /audit.
unfoldable pub get_audit : Zod → User → Value → Gateway Response
unfolding list_events
get_audit zod user request_query = do
  q ← parsed (zod audit_query_schema request_query)
  list_events user q

abbrev pub detail_call : User → Value → Call
detail_call user request_id =
    query
      (text "SELECT * FROM usage_events WHERE request_id = $"
        ∷ param 1
        ∷ text " AND org_id = $"
        ∷ param 2
        ∷ text " LIMIT 1"
        ∷ [])
      (request_id ∷ user.org_id ∷ [])

abbrev pub detail_reply : List Value → Response
detail_reply [] = error_reply 404 "Request not found"
detail_reply (row ∷ rows) = reply 200 row

-- GET /audit/:requestId.
unfoldable pub get_event : User → (request_id : Value) → Gateway Response
get_event user request_id = do rows ← await (detail_call user request_id); done (detail_reply rows)

abbrev set_if : Value → String → List (String × Value)
set_if v key = if truthy v then (key, v) ∷ [] else []

abbrev pub verify_request : (audit_service_url : String) → User → Value → FetchRequest
verify_request url user q = record {
  verb = "GET";
  url = url ∷ "/audit/verify" ∷ [];
  search = ("org_id", user.org_id) ∷ set_if (get q "start") "start" ++ set_if (get q "end") "end";
  headers = [];
  payload = none;
}

-- The upstream reply with its status and its JSON body.
unfoldable pub pass_on : Fetched → Gateway Response
pass_on res = do body ← await (read_json res); done (reply res.status body)

-- GET /audit/verify.
unfoldable pub verify_chain : String → User → Value → Gateway Response
unfolding pass_on
verify_chain url user q = do res ← await (fetch (verify_request url user q)); pass_on res
