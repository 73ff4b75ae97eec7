-- ===== src/Sql/Numbering.antt =====
-- The placeholders of a filter are its parameters, in order, and its first condition is the
-- organisation's.
use ai_gcm.Base.{
  ℕ, zero, suc, String, ◌≡◌, refl, sym, ap, Bool, true, false, List, [], ◌∷◌, ◌++◌, length,
  length-append, arith,
}
use mathlib.Core.List.{append_assoc, append-nil}
use ai_gcm.Js.{Value}
use ai_gcm.Sql.{Sql, text, param, params_of, join_from, join_and}
use ai_gcm.Sql.Filter.{Filter, by_org, push, push_if, fixed_if, where_clause}

-- The numbers from 1 to n.
abbrev pub upto : ℕ → List ℕ
upto zero = []
upto (suc n) = upto n ++ suc n ∷ []

pub params_of-append : (a b : Sql) → params_of (a ++ b) ≡ params_of a ++ params_of b
params_of-append [] b = refl
params_of-append (text s ∷ a) b = params_of-append a b
params_of-append (param n ∷ a) b = ap (λ l. n ∷ l) (params_of-append a b)

abbrev pub params_of_all : List Sql → List ℕ
params_of_all [] = []
params_of_all (c ∷ cs) = params_of c ++ params_of_all cs

params_of-join_from :
    (sql : Sql) (cs : List Sql) → params_of (join_from sql cs) ≡ params_of sql ++ params_of_all cs
params_of-join_from sql [] = sym (append-nil _)
params_of-join_from sql (c ∷ cs) =
    simp (params_of-join_from (sql ++ (text " AND " ∷ c)) cs, params_of-append, append_assoc)

params_of-join_and : (cs : List Sql) → params_of (join_and cs) ≡ params_of_all cs
params_of-join_and [] = refl
params_of-join_and (c ∷ cs) = params_of-join_from c cs

params_of_all-append :
    (cs ds : List Sql) → params_of_all (cs ++ ds) ≡ params_of_all cs ++ params_of_all ds
params_of_all-append [] ds = refl
params_of_all-append (c ∷ cs) ds = simp (params_of_all-append cs ds, append_assoc)

-- Each parameter has its placeholder, in order; the next number is free; the first condition
-- compares the organisation with the first parameter.
pub record IsNumbered (org_id : Value) (f : Filter) : Type 0 where
  pub numbered : params_of (where_clause f) ≡ upto (length f.params)
  pub free : f.idx ≡ suc (length f.params)
  pub rest : List Sql
  pub scoped : f.conditions ≡ (text "org_id = $" ∷ param 1 ∷ []) ∷ rest
  pub others : List Value
  pub owner : f.params ≡ org_id ∷ others

pub by_org-IsNumbered : (org_id : Value) → IsNumbered org_id (by_org org_id)
by_org-IsNumbered org_id = record {
  numbered = refl;
  free = refl;
  rest = [];
  scoped = refl;
  others = [];
  owner = refl;
}

pub length-concat : {A : Type 0} (xs : List A) (x : A) → length (xs ++ x ∷ []) ≡ suc (length xs)
length-concat xs x = omega (arith, length-append xs (x ∷ []))

-- One more numbered condition.
pub numbered-concat :
    (cs : List Sql) (c : Sql) (n m : ℕ)
    → params_of (join_and cs) ≡ upto n
    → params_of c ≡ suc n ∷ []
    → m ≡ suc n
    → params_of (join_and (cs ++ c ∷ [])) ≡ upto m
numbered-concat cs c n m old new e =
    rw (e, params_of-join_and, params_of_all-append, ← params_of-join_and cs, old)
      (rw (new, append-nil) refl)

module _ {org_id : Value} (before after : String) (v : Value) where
  pub push-IsNumbered :
      (f : Filter) → IsNumbered org_id f → IsNumbered org_id (push before after v f)
  unfolding push
  push-IsNumbered f w = record {
    numbered =
        numbered-concat f.conditions (text before ∷ param f.idx ∷ text after ∷ []) (length f.params)
          _ w.numbered (ap (λ n. n ∷ []) w.free) (length-concat f.params v);
    free = omega (arith, w.free, length-concat f.params v);
    rest = w.rest ++ (text before ∷ param f.idx ∷ text after ∷ []) ∷ [];
    scoped = ap (λ cs. cs ++ (text before ∷ param f.idx ∷ text after ∷ []) ∷ []) w.scoped;
    others = w.others ++ v ∷ [];
    owner = ap (λ ps. ps ++ v ∷ []) w.owner;
  }

  pub push_if-IsNumbered :
      (test : Bool) (f : Filter)
      → IsNumbered org_id f
      → IsNumbered org_id (push_if test before after v f)
  unfolding push_if
  push_if-IsNumbered true f w = push-IsNumbered f w
  push_if-IsNumbered false f w = w

-- A condition without a parameter leaves the numbering.
pub fixed_if-IsNumbered :
    {org_id : Value} (test : Bool) (condition : String) (f : Filter)
    → IsNumbered org_id f
    → IsNumbered org_id (fixed_if test condition f)
unfolding fixed_if
fixed_if-IsNumbered false condition f w = w
fixed_if-IsNumbered true condition f w = record {
  numbered =
      rw (params_of-join_and, params_of_all-append, append-nil, ← params_of-join_and f.conditions)
        w.numbered;
  free = w.free;
  rest = w.rest ++ (text condition ∷ []) ∷ [];
  scoped = ap (λ cs. cs ++ (text condition ∷ []) ∷ []) w.scoped;
  others = w.others;
  owner = w.owner;
}
