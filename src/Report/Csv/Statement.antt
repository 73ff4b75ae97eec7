-- ===== src/Report/Csv/Statement.antt =====
-- The WHERE clause of the export (services/report-service/src/renderer/csv.ts).
use ai_gcm.Base.{
  ◌+◌, String, ◌≡◌, refl, ap, Bool-cases, inl, inr, Option, none, some, List, [], ◌∷◌, ◌++◌, length,
  arith, ◌==◌,
}
use ai_gcm.Js.{Value, str}
use ai_gcm.Sql.{Sql, text, param, params_of, join_and}
use ai_gcm.Sql.Numbering.{upto, numbered-concat, length-concat}
use ai_gcm.Report.Csv.{
  CsvExportOptions, Where, period_where, add_condition, add_given, export_where,
}

-- The placeholders are the parameters in order; the first condition compares the organisation
-- with the first parameter.
pub record IsNumberedWhere (org_id : String) (w : Where) : Type 0 where
  pub numbered : params_of (join_and w.conditions) ≡ upto (length w.params)
  pub rest : List Sql
  pub scoped : w.conditions ≡ (text "org_id = $" ∷ param 1 ∷ []) ∷ rest
  pub others : List Value
  pub owner : w.params ≡ str org_id ∷ others

module _ {org_id : String} (column : String) where
  add_condition-IsNumberedWhere :
      (value : String) (w : Where)
      → IsNumberedWhere org_id w
      → IsNumberedWhere org_id (add_condition column value w)
  unfolding add_condition
  add_condition-IsNumberedWhere value w n = record {
    numbered =
        numbered-concat w.conditions (text column ∷ param (length w.params + 1) ∷ [])
          (length w.params) _ n.numbered (ap (λ k. k ∷ []) (omega arith))
          (length-concat w.params (str value));
    rest = n.rest ++ (text column ∷ param (length w.params + 1) ∷ []) ∷ [];
    scoped = ap (λ cs. cs ++ (text column ∷ param (length w.params + 1) ∷ []) ∷ []) n.scoped;
    others = n.others ++ str value ∷ [];
    owner = ap (λ ps. ps ++ str value ∷ []) n.owner;
  }

  add_given-IsNumberedWhere :
      (value : Option String) (w : Where)
      → IsNumberedWhere org_id w
      → IsNumberedWhere org_id (add_given column value w)
  unfolding add_given
  add_given-IsNumberedWhere none w n = n
  add_given-IsNumberedWhere (some value) w n = elim (Bool-cases (value == "")) [
    | inl empty ↦ rw (empty, add_given) n
    | inr filled ↦ rw (filled, add_given) (add_condition-IsNumberedWhere value w n)
  ]

-- Whatever filters an export has, its statement names each of its parameters exactly once and in
-- order, and its first condition holds the rows to the organisation of the report.
pub export_where-IsNumberedWhere :
    (o : CsvExportOptions) → IsNumberedWhere o.org_id (export_where o)
unfolding export_where
export_where-IsNumberedWhere o = add_given-IsNumberedWhere "provider = $" o.provider _ (
    add_given-IsNumberedWhere "user_id = $" o.user_id _ (
      add_given-IsNumberedWhere "team_id = $" o.team_id (period_where o) (record {
        numbered = refl;
        rest =
            (text "created_at >= $" ∷ param 2 ∷ []) ∷ (text "created_at <= $" ∷ param 3 ∷ []) ∷ [];
        scoped = refl;
        others = _;
        owner = refl;
      })))
