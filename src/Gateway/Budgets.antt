-- ===== src/Gateway/Budgets.antt =====
-- Budget routes (services/api-gateway/src/routes/budgets.ts).
use ai_gcm.Base.{false, List, [], ◌∷◌, map}
use ai_gcm.Js.{Value, nat, bool, get, object, items}
use ai_gcm.Effect.{done, await, ◌>>=◌, ◌>>◌}
use ai_gcm.Zod.{
  Zod, Schema, Shape, min, max, uuid, positive, string, enum, number, boolean, array, defaulted,
  prop,
}
use ai_gcm.Http.{Response, reply, error_reply}
use ai_gcm.Sql.{text, param}
use ai_gcm.Gateway.Calls.{Call, query, Gateway, User, parsed}

abbrev pub create_budget_schema : Schema
create_budget_schema = Schema.object (
    prop "name" (string (min 1 ∷ max 255 ∷ [])) (
      prop "scope_type" (enum ("org" ∷ "department" ∷ "team" ∷ "project" ∷ "user" ∷ [])) (
        prop "scope_id" (string (uuid ∷ [])) (
          prop "amount_usd" (number (positive ∷ [])) (
            prop "period" (enum ("daily" ∷ "weekly" ∷ "monthly" ∷ "quarterly" ∷ "annual" ∷ [])) (
              prop "alert_thresholds"
                (defaulted (array (number (min 1 ∷ max 100 ∷ [])))
                  (Value.arr (items (map nat (50 ∷ 75 ∷ 90 ∷ 100 ∷ [])))))
                (prop "hard_limit" (defaulted boolean (bool false))
                  (prop "rollover" (defaulted boolean (bool false)) Shape.nil))))))))

abbrev pub list_call : User → Call
list_call user =
    query
      (text
          "SELECT b.*, bs.spent_usd, ROUND((bs.spent_usd / b.amount_usd) * 100, 2) AS utilization_pct FROM budgets b LEFT JOIN budget_spend bs ON bs.budget_id = b.id AND bs.period_key = TO_CHAR(NOW(), 'YYYY-MM') WHERE b.org_id = $"
        ∷ param 1
        ∷ text " AND b.is_active = TRUE ORDER BY b.created_at DESC"
        ∷ [])
      (user.org_id ∷ [])

-- GET /budgets.
unfoldable pub list_budgets : User → Gateway Response
list_budgets user = do
  rows ← await (list_call user)
  done (reply 200 (object (("budgets", Value.arr (items rows)) ∷ [])))

abbrev pub insert_call : User → Value → Call
insert_call user d =
    query
      (text
          "INSERT INTO budgets (org_id, name, scope_type, scope_id, amount_usd, period, alert_thresholds, hard_limit, rollover, created_by) VALUES ($"
        ∷ param 1
        ∷ text ",$"
        ∷ param 2
        ∷ text ",$"
        ∷ param 3
        ∷ text ",$"
        ∷ param 4
        ∷ text ",$"
        ∷ param 5
        ∷ text ",$"
        ∷ param 6
        ∷ text ",$"
        ∷ param 7
        ∷ text ",$"
        ∷ param 8
        ∷ text ",$"
        ∷ param 9
        ∷ text ",$"
        ∷ param 10
        ∷ text ") RETURNING *"
        ∷ [])
      (user.org_id
        ∷ get d "name"
        ∷ get d "scope_type"
        ∷ get d "scope_id"
        ∷ get d "amount_usd"
        ∷ get d "period"
        ∷ get d "alert_thresholds"
        ∷ get d "hard_limit"
        ∷ get d "rollover"
        ∷ user.user_id
        ∷ [])

-- `rows[0]`, undefined without a row.
abbrev pub row_or_undefined : List Value → Value
row_or_undefined [] = Value.undefined
row_or_undefined (row ∷ rows) = row

-- POST /budgets.
unfoldable pub create_budget : Zod → User → (body : Value) → Gateway Response
create_budget zod user body = do
  d ← parsed (zod create_budget_schema body)
  rows ← await (insert_call user d)
  done (reply 201 (row_or_undefined rows))

abbrev pub budget_call : User → Value → Call
budget_call user id =
    query
      (text
          "SELECT b.*, bs.spent_usd, (b.amount_usd - COALESCE(bs.spent_usd,0)) AS remaining_usd, ROUND((COALESCE(bs.spent_usd,0) / b.amount_usd) * 100, 2) AS utilization_pct FROM budgets b LEFT JOIN budget_spend bs ON bs.budget_id = b.id AND bs.period_key = TO_CHAR(NOW(), 'YYYY-MM') WHERE b.id = $"
        ∷ param 1
        ∷ text " AND b.org_id = $"
        ∷ param 2
        ∷ [])
      (id ∷ user.org_id ∷ [])

abbrev pub budget_reply : List Value → Response
budget_reply [] = error_reply 404 "Budget not found"
budget_reply (row ∷ rows) = reply 200 row

-- GET /budgets/:id.
unfoldable pub get_budget : User → (id : Value) → Gateway Response
get_budget user id = do rows ← await (budget_call user id); done (budget_reply rows)

abbrev pub deactivate_call : User → Value → Call
deactivate_call user id =
    query
      (text "UPDATE budgets SET is_active = FALSE, updated_at = NOW() WHERE id = $"
        ∷ param 1
        ∷ text " AND org_id = $"
        ∷ param 2
        ∷ [])
      (id ∷ user.org_id ∷ [])

-- DELETE /budgets/:id.
unfoldable pub delete_budget : User → (id : Value) → Gateway Response
delete_budget user id = do await (deactivate_call user id); done (reply 204 Value.undefined)
