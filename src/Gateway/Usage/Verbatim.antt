-- ===== src/Gateway/Usage/Verbatim.antt =====
-- How a request reaches the ClickHouse statement (services/api-gateway/src/routes/usage.ts).
use Prim.Native.String
use text.Mathlib.TextLemmas.{append_assoc, nil-append}
use ai_gcm.Base.{String, ◌≡◌, ◌≢◌, sym, ap, ◌∙◌, false, List, [], ◌∷◌, ◌++◌, ◌==◌, eq_iff, arith}
use ai_gcm.Js.{Value, str}
use ai_gcm.Gateway.Usage.{
  Fragment, lit, val, render, UsageQuery, build_click_house_query, query_start, quoted_if,
  query_end,
}

render-append :
    (show : Value → String) (a b : List Fragment)
    → render show (a ++ b) ≡ String.◌++◌ (render show a) (render show b)
unfolding render
render-append show [] b = sym (nil-append _)
render-append show (lit s ∷ a) b =
    ap (String.◌++◌ s) (render-append show a b) ∙ sym (append_assoc s _ _)
render-append show (val v ∷ a) b =
    ap (String.◌++◌ (show v)) (render-append show a b) ∙ sym (append_assoc (show v) _ _)

nonempty : (t : String) → t ≢ "" → (t == "") ≡ false
nonempty t filled = ground (arith, eq_iff t "")

-- The statement's text around the provider that a request gives.
abbrev pub before_provider : (Value → String) → Value → UsageQuery → String
before_provider show org_id q = String.◌++◌ (render show (query_start org_id q)) "AND provider = '"

abbrev pub after_provider : (Value → String) → UsageQuery → String
after_provider show q =
    render show (lit "'" ∷ lit " " ∷ quoted_if "AND team_id  = '" q.team_id ++ query_end q)

-- A provider that a request gives, unless it is empty, stands in the statement as it was given, quotes included,
-- between two texts that do not depend on it: nothing is escaped or bound.
pub provider_verbatim :
    (show : Value → String) (org_id : Value) (q : UsageQuery) (p : String)
    → ((s : String) → show (str s) ≡ s)
    → p ≢ ""
    → render show (build_click_house_query org_id (record q { provider = str p }))
      ≡ String.◌++◌ (before_provider show org_id q) (String.◌++◌ p (after_provider show q))
unfolding build_click_house_query
provider_verbatim show org_id q p texts filled =
    let tail : List Fragment =
      lit "'" ∷ lit " " ∷ quoted_if "AND team_id  = '" q.team_id ++ query_end q in
    rw (nonempty p filled) (
      render-append show (query_start org_id q) (lit "AND provider = '" ∷ val (str p) ∷ tail)
      ∙ unfold render in
        rw (texts p) (sym (append_assoc (render show (query_start org_id q)) "AND provider = '" _)))
