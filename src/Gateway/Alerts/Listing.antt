-- ===== src/Gateway/Alerts/Listing.antt =====
-- The statements of the alert list (services/api-gateway/src/routes/alerts.ts).
use ai_gcm.Base.{
  ◌≡◌, ◌⊎◌, suc, String, Option, none, some, true, not, List, [], ◌∷◌, ◌++◌, length, ◌==◌, arith,
  if◌then◌else◌,
}
use ai_gcm.Js.{Value, bool, get, truthy, is_undefined, undefined}
use ai_gcm.Zod.{Zod, Schema, Shape, optional, coerced_boolean, nil, prop, success}
use ai_gcm.Sql.{Sql, text, param}
use ai_gcm.Sql.Filter.{Filter, push}
use ai_gcm.Sql.Numbering.{IsNumbered, by_org-IsNumbered, push_if-IsNumbered}
use ai_gcm.Gateway.Calls.{Call}
use ai_gcm.Gateway.Listing.{IsBound, page-IsBound}
use ai_gcm.Gateway.Alerts.{alert_filter, count_alerts, select_alerts}

-- Whatever the query, the filter's placeholders are its parameters in order, and its first
-- condition holds the rows to the organisation of the caller.
pub alert_filter-IsNumbered : (org_id q : Value) → IsNumbered org_id (alert_filter org_id q)
unfolding alert_filter
alert_filter-IsNumbered org_id q =
    push_if-IsNumbered "is_read = $" "" (get q "is_read") (not (is_undefined (get q "is_read"))) _ (
      push_if-IsNumbered "type = $" "" (get q "type") (truthy (get q "type")) _ (
        push_if-IsNumbered "severity = $" "" (get q "severity") (truthy (get q "severity")) _
          (by_org-IsNumbered org_id)))

-- Whatever the query, both statements of GET /alerts name each of their parameters exactly once
-- and in order.
pub alerts-IsBound :
    (org_id q : Value)
    → IsBound (count_alerts (alert_filter org_id q))
      × IsBound (select_alerts q (alert_filter org_id q))
alerts-IsBound org_id q =
    let w = alert_filter-IsNumbered org_id q in
    (
      w.numbered,
      page-IsBound "" " ORDER BY created_at DESC LIMIT $" " OFFSET $" (alert_filter org_id q)
          (get q "limit") (get q "offset") w,
    )

-- Two queries that give the same filters make the same text: no value of a request is in it.
pub alerts_text :
    (org org' q q' : Value)
    → truthy (get q "severity") ≡ truthy (get q' "severity")
    → truthy (get q "type") ≡ truthy (get q' "type")
    → is_undefined (get q "is_read") ≡ is_undefined (get q' "is_read")
    → (alert_filter org q).conditions ≡ (alert_filter org' q').conditions
unfolding alert_filter push
alerts_text org org' q q' severity type is_read = ground arith

-- The schema of a property.
abbrev pub schema_of : String → Shape → Option Schema
schema_of key nil = none
schema_of key (prop k schema rest) = if k == key then some schema else schema_of key rest

-- zod's documented reading of a property `z.coerce.boolean().optional()` of an object: Boolean of
-- its value, unless it is absent.
pub record CoercesBooleans (zod : Zod) : Type 0 where
  pub coerced :
      (shape : Shape) (key : String) (v d : Value)
      → schema_of key shape ≡ some (optional coerced_boolean)
      → zod (Schema.object shape) v ≡ success d
      → get d key ≡ (if is_undefined (get v key) then undefined else bool (truthy (get v key)))

-- The statements that the route has sent have the conditions and the parameters of one filter,
-- whose last condition asks that is_read be its last parameter, which is true.
pub record AsksRead (h : List Call) (d : Value) (h' : List Call) : Type 0 where
  pub filter : Filter
  pub earlier : List Sql
  pub before : List Value
  pub asks :
      filter.conditions
      ≡ earlier ++ (text "is_read = $" ∷ param (suc (length before)) ∷ text "" ∷ []) ∷ []
  pub given : filter.params ≡ before ++ bool true ∷ []
  pub sent :
      (h' ≡ count_alerts filter ∷ h) ⊎ (h' ≡ select_alerts d filter ∷ count_alerts filter ∷ h)
