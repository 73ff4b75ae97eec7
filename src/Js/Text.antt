-- ===== src/Js/Text.antt =====
-- `String.prototype.indexOf` for one character, and `slice`. Positions count code points, where
-- JavaScript counts UTF-16 units: at a position that `indexOf` returned the two cuts agree.
use Prim.Native.Nat.{ℕ, zero, suc, ◌+◌}
use Prim.Native.Char.{code}
use Prim.Native.String.{String, [], ◌∷◌, ◌++◌}
use mathlib.Core.Path.{◌≡◌, refl}
use mathlib.Core.Logic.{◌≢◌}
use mathlib.Core.Option
use mathlib.Core.Option.{Option, none, some}
use native.Mathlib.Omega.{arith}
use text.Mathlib.TextLemmas.{nil-append, cons-append}
use mathlib.Core.Logic.{inl, inr}
use ai_gcm.Base.{nat_eq, if◌then◌else◌, Bool-cases}

-- `s.indexOf(c)`, with `none` for -1.
unfoldable pub index_of : ℕ → String → Option ℕ
index_of c [] = none
index_of c (d ∷ s) = if nat_eq (code d) c then some 0 else Option.map suc (index_of c s)

-- `s.slice(0, n)`.
unfoldable pub slice_to : ℕ → String → String
slice_to zero s = []
slice_to (suc n) [] = []
slice_to (suc n) (d ∷ s) = d ∷ slice_to n s

-- `s.slice(n)`.
unfoldable pub slice_from : ℕ → String → String
slice_from zero s = s
slice_from (suc n) [] = []
slice_from (suc n) (d ∷ s) = slice_from n s

abbrev pub Lacks : ℕ → String → Type 0
Lacks c [] = Unit
Lacks c (d ∷ s) = (code d ≢ c) × Lacks c s

abbrev pub size : String → ℕ
size [] = 0
size (d ∷ s) = suc (size s)

-- The first dot of a text that joins a part without dots to any text.
module _ (rest : String) where
  pub index_of-joined :
      (s : String) → Lacks b'.' s → index_of b'.' (s ++ ("." ++ rest)) ≡ some (size s)
  unfolding index_of
  index_of-joined [] h = rw (nil-append, cons-append) refl
  index_of-joined (d ∷ s) (apart, h) = rw (cons-append d s, index_of-joined s h) (ground arith)

  pub slice_to-joined : (s : String) → slice_to (size s) (s ++ ("." ++ rest)) ≡ s
  unfolding slice_to
  slice_to-joined [] = refl
  slice_to-joined (d ∷ s) = rw (cons-append d s, slice_to-joined s)

  pub slice_from-joined : (s : String) → slice_from (suc (size s)) (s ++ ("." ++ rest)) ≡ rest
  unfolding slice_from
  slice_from-joined [] = rw (nil-append, cons-append) (nil-append rest)
  slice_from-joined (d ∷ s) = rw (cons-append d s) (slice_from-joined s)

-- What follows a text in its joining with another.
pub slice_from-append : (s rest : String) → slice_from (size s) (s ++ rest) ≡ rest
unfolding slice_from
slice_from-append [] rest = nil-append rest
slice_from-append (d ∷ s) rest = rw (cons-append d s) (slice_from-append s rest)

pub size-append : (s t : String) → size (s ++ t) ≡ size s + size t
size-append [] t = rw (nil-append t) (omega arith)
size-append (d ∷ s) t = rw (cons-append d s) (omega (arith, size-append s t))

map-none : (o : Option ℕ) → Option.map suc o ≡ none → o ≡ none
map-none none e = refl
map-none (some i) e = cc

-- The first slash of a text that joins a part without slashes to any text.
pub index_of-slash :
    (s rest : String) → index_of b'/' s ≡ none → index_of b'/' (s ++ ("/" ++ rest)) ≡ some (size s)
unfolding index_of
index_of-slash [] rest e = rw (nil-append, cons-append) refl
index_of-slash (d ∷ s) rest e = elim (Bool-cases (nat_eq (code d) b'/')) [
  | inl same ↦ let e' : some 0 ≡ none = rw same at e in absurd cc
  | inr apart ↦
      let e' : Option.map suc (index_of b'/' s) ≡ none = rw apart at e in
      rw (cons-append d s, apart, index_of-slash s rest (map-none _ e')) refl
]

pub slice_to-append : (s t : String) → slice_to (size s) (s ++ t) ≡ s
unfolding slice_to
slice_to-append [] t = refl
slice_to-append (d ∷ s) t = rw (cons-append d s, slice_to-append s t)
