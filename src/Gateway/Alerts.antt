-- ===== src/Gateway/Alerts.antt =====
-- Alert routes (services/api-gateway/src/routes/alerts.ts).
pub mod Listing
use ai_gcm.Base.{
  ℕ, ◌+◌, String, Bool, Option, none, some, List, [], ◌∷◌, ◌++◌, not, ◌==◌, if◌then◌else◌,
}
use ai_gcm.Js.{
  Value, Number, Fields, nat, num, str, bool, get, field, fields, object, truthy, or_else,
  is_undefined,
}
use ai_gcm.Js.ParseInt.{parse_int, add_number}
use ai_gcm.Effect.{done, await, ◌>>=◌, ◌>>◌}
use ai_gcm.Zod.{
  Zod, Check, Schema, Shape, min, max, string, enum, coerced_number, coerced_boolean, optional,
  defaulted, nil, prop,
}
use ai_gcm.Http.{Response, reply}
use ai_gcm.Sql.{Sql, text, param}
use ai_gcm.Sql.Filter.{Filter, by_org, push_if, where_clause}
use ai_gcm.Gateway.Calls.{Call, query, Gateway, User, parsed}

abbrev pub severities : List String
severities = "critical" ∷ "warning" ∷ "info" ∷ []

abbrev pub alert_query_shape : Shape
alert_query_shape = prop "severity" (optional (enum severities)) (
    prop "type" (optional (string [])) (
      prop "is_read" (optional coerced_boolean) (
        prop "limit" (defaulted (coerced_number (min 1 ∷ max 200 ∷ [])) (nat 50))
          (prop "offset" (defaulted (coerced_number (min 0 ∷ [])) (nat 0)) nil))))

abbrev pub alert_query_schema : Schema
alert_query_schema = Schema.object alert_query_shape

-- The first two conditions that a query can add.
unfoldable pub kind_filter : Value → Value → Filter
unfolding push_if
kind_filter org_id q =
    push_if (truthy (get q "type")) "type = $" "" (get q "type")
      (push_if (truthy (get q "severity")) "severity = $" "" (get q "severity") (by_org org_id))

unfoldable pub alert_filter : Value → Value → Filter
unfolding push_if kind_filter
alert_filter org_id q =
    push_if (not (is_undefined (get q "is_read"))) "is_read = $" "" (get q "is_read")
      (kind_filter org_id q)

abbrev pub count_alerts : Filter → Call
count_alerts f =
    query (text "SELECT COUNT(*) AS total FROM alert_events WHERE " ∷ where_clause f) f.params

-- `[...params, limit, offset]`, with the two placeholders after the filter's.
abbrev pub page_params : Value → Filter → List Value
page_params q f = f.params ++ get q "limit" ∷ get q "offset" ∷ []

abbrev pub page_clause : Filter → Sql
page_clause f =
    text " ORDER BY created_at DESC LIMIT $"
    ∷ param f.idx
    ∷ text " OFFSET $"
    ∷ param (f.idx + 1)
    ∷ []

abbrev pub select_alerts : Value → Filter → Call
select_alerts q f =
    query
      (text
            "SELECT id, org_id, team_id, user_id, type, severity, message, metadata, is_read, created_at FROM alert_events WHERE "
          ∷ where_clause f
        ++ page_clause f)
      (page_params q f)

-- `rows[0]?.[key] ?? fallback`.
abbrev pub first_or : List Value → String → Value → Value
first_or [] key fallback = fallback
first_or (row ∷ rows) key fallback = or_else (get row key) fallback

abbrev pub page : Value → Number → List Value → Response
page q total rows = reply 200 (
    object (
      ("total", num total)
      ∷ ("limit", get q "limit")
      ∷ ("offset", get q "offset")
      ∷ ("rows", Value.arr (ai_gcm.Js.items rows))
      ∷ []))

-- GET /alerts, after the query string is parsed.
unfoldable pub list_alerts : User → Value → Gateway Response
list_alerts user q = do
  let f = alert_filter user.org_id q
  counted ← await (count_alerts f)
  rows ← await (select_alerts q f)
  done (page q (parse_int (first_or counted "total" (str "0"))) rows)

unfoldable pub get_alerts : Zod → User → Value → Gateway Response
unfolding list_alerts
get_alerts zod user request_query = do
  q ← parsed (zod alert_query_schema request_query)
  list_alerts user q

-- POST /alerts/:id/acknowledge.
unfoldable pub acknowledge : User → (id : Value) → Gateway Response
acknowledge user id = do
  await (
      query
        (text "UPDATE alert_events SET is_read = TRUE WHERE id = $"
          ∷ param 1
          ∷ text " AND org_id = $"
          ∷ param 2
          ∷ [])
        (id ∷ user.org_id ∷ []))
  done (reply 204 Value.undefined)

abbrev pub acknowledge_all_call : User → Value → Call
acknowledge_all_call user severity =
    let sql : Sql =
      text "UPDATE alert_events SET is_read = TRUE WHERE org_id = $"
      ∷ param 1
      ∷ text " AND is_read = FALSE"
      ∷ [] in
    if truthy severity
    then query (sql ++ text " AND severity = $" ∷ param 2 ∷ []) (user.org_id ∷ severity ∷ [])
    else query sql (user.org_id ∷ [])

-- POST /alerts/acknowledge-all.
unfoldable pub acknowledge_all : User → (body : Value) → Gateway Response
acknowledge_all user body = do
  await (acknowledge_all_call user (get body "severity"))
  done (reply 204 Value.undefined)

-- `summary[row.severity] = …`.
abbrev pub assign : String → Number → List (String × Number) → List (String × Number)
assign k n [] = (k, n) ∷ []
assign k n ((j, m) ∷ s) = if j == k then (k, n) ∷ s else (j, m) ∷ assign k n s

-- A property key is the text of its value; severities are texts.
abbrev pub key_of : Value → String
key_of (str s) = s
key_of Value.undefined = "undefined"
key_of Value.null = "null"
key_of _ = "[object Object]"

pub summarise : List (String × Number) → List Value → List (String × Number)
summarise s [] = s
summarise s (row ∷ rows) =
    summarise (assign (key_of (get row "severity")) (parse_int (get row "count")) s) rows

abbrev pub no_alerts : List (String × Number)
no_alerts =
    ("critical", Number.whole 0) ∷ ("warning", Number.whole 0) ∷ ("info", Number.whole 0) ∷ []

-- `Object.values(summary).reduce((a, b) => a + b, 0)`.
pub sum_from : Number → List (String × Number) → Number
sum_from acc [] = acc
sum_from acc ((k, n) ∷ s) = sum_from (add_number acc n) s

abbrev pub number_fields : List (String × Number) → List (String × Value)
number_fields [] = []
number_fields ((k, n) ∷ s) = (k, num n) ∷ number_fields s

abbrev pub summary_call : User → Call
summary_call user =
    query
      (text "SELECT severity, COUNT(*) AS count FROM alert_events WHERE org_id = $"
        ∷ param 1
        ∷ text " AND is_read = FALSE GROUP BY severity"
        ∷ [])
      (user.org_id ∷ [])

abbrev pub summary_reply : List (String × Number) → Response
summary_reply s = reply 200 (
    object
      (("unread", object (number_fields s)) ∷ ("total", num (sum_from (Number.whole 0) s)) ∷ []))

-- GET /alerts/summary.
unfoldable pub summary : User → Gateway Response
unfolding summarise sum_from
summary user = do rows ← await (summary_call user); done (summary_reply (summarise no_alerts rows))
