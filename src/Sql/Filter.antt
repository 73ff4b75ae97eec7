-- ===== src/Sql/Filter.antt =====
-- The loop variables of the handlers that build a WHERE clause: `conditions`, `params` and `idx`
-- (services/api-gateway/src/routes/alerts.ts, audit.ts; renderer/csv.ts of the report service).
use ai_gcm.Base.{ℕ, ◌+◌, String, Bool, List, [], ◌∷◌, ◌++◌, if◌then◌else◌}
use ai_gcm.Js.{Value}
use ai_gcm.Sql.{Sql, text, param, join_and}

pub record Filter : Type 0 where
  pub conditions : List Sql
  pub params : List Value
  pub idx : ℕ

-- conditions = ['org_id = $1'], params = [orgId], idx = 2.
abbrev pub by_org : Value → Filter
by_org org_id = record {
  conditions = (text "org_id = $" ∷ param 1 ∷ []) ∷ [];
  params = org_id ∷ [];
  idx = 2;
}

-- `conditions.push(before $idx after); params.push(v); idx++`.
unfoldable pub push : (before after : String) → Value → Filter → Filter
push before after v f = record {
  conditions = f.conditions ++ (text before ∷ param f.idx ∷ text after ∷ []) ∷ [];
  params = f.params ++ v ∷ [];
  idx = f.idx + 1;
}

-- The same under `if (test)`.
unfoldable pub push_if : Bool → (before after : String) → Value → Filter → Filter
unfolding push
push_if test before after v f = if test then push before after v f else f

-- `conditions.push(condition)`, with no parameter.
unfoldable pub fixed_if : Bool → String → Filter → Filter
fixed_if test condition f =
    if test then record f { conditions = f.conditions ++ (text condition ∷ []) ∷ [] } else f

abbrev pub where_clause : Filter → Sql
where_clause f = join_and f.conditions
