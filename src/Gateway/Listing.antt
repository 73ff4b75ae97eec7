-- ===== src/Gateway/Listing.antt =====
-- What the statements of the listing routes have in common.
use ai_gcm.Base.{suc, ◌+◌, String, ◌≡◌, [], ◌∷◌, ◌++◌, length, length-append, arith}
use mathlib.Core.List.{append_assoc}
use ai_gcm.Js.{Value}
use ai_gcm.Sql.{text, param, params_of}
use ai_gcm.Sql.Filter.{Filter, where_clause}
use ai_gcm.Sql.Numbering.{upto, params_of-append, IsNumbered}
use ai_gcm.Gateway.Calls.{Call, query}

-- The statement's placeholders are $1, $2, … in order, one for each parameter given.
abbrev pub IsBound : Call → Type 0
IsBound (query sql params) = params_of sql ≡ upto (length params)
IsBound _ = Unit

-- The two placeholders of a page come after the filter's.
pub page-IsBound :
    {org_id : Value} (before middle last : String) (f : Filter) (limit offset : Value)
    → IsNumbered org_id f
    → IsBound (
        query
          (text before ∷ where_clause f
            ++ text middle ∷ param f.idx ∷ text last ∷ param (f.idx + 1) ∷ [])
          (f.params ++ limit ∷ offset ∷ []))
page-IsBound before middle last f limit offset w =
    let size : length (f.params ++ limit ∷ offset ∷ []) ≡ suc (suc (length f.params)) =
      omega (arith, length-append f.params (limit ∷ offset ∷ [])) in
    let next : f.idx + 1 ≡ suc (suc (length f.params)) = omega (arith, w.free) in
    rw (size, params_of-append, w.numbered, next, w.free) (simp append_assoc)
