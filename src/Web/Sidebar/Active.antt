-- ===== src/Web/Sidebar/Active.antt =====
-- Which links are highlighted (apps/web/src/components/layout/Sidebar.tsx).
use Prim.Native.String.{◌++◌ as ◌<>◌}
use text.Mathlib.Text.{starts_with}
use text.Mathlib.TextEquality.{starts_with_iff}
use text.Mathlib.TextLemmas.{append_assoc}
use ai_gcm.Base.{
  ℕ, ◌≤◌, ◌≡◌, refl, sym, ap, ◌∙◌, inl, inr, String, Bool, true, false, not, ◌&&◌, Bool-cases,
  Option, none, some, List, [], ◌∷◌, ◌==◌, eq_iff, All, length, arith,
}
use ai_gcm.Js.Text.{
  index_of, slice_to, slice_from, index_of-slash, slice_to-append, slice_from-append,
}
use ai_gcm.Web.AlertsPage.{keep}
use ai_gcm.Web.Sidebar.{NavItem, nav, is_active}

-- The first part of a path, between its first character and the next slash.
abbrev to_slash : String → Option ℕ → String
to_slash p none = p
to_slash p (some i) = slice_to i p

abbrev part : String → String
part path = to_slash (slice_from 1 path) (index_of b'/' (slice_from 1 path))

abbrev name : NavItem → String
name n = slice_from 1 n.href

-- A link is a slash and a name without slashes.
abbrev IsLink : NavItem → Type 0
IsLink n = (n.href ≡ "/" <> name n) × (index_of b'/' (name n) ≡ none)

part-name : (n : NavItem) → IsLink n → part n.href ≡ name n
part-name n l = rw (l.1) refl

part-joined : (t rest : String) → index_of b'/' t ≡ none → part ("/" <> (t <> ("/" <> rest))) ≡ t
part-joined t rest plain =
    rw (slice_from-append "/" (t <> ("/" <> rest)), index_of-slash t rest plain)
      (slice_to-append t ("/" <> rest))

-- A path that goes on after a link has the link's name as its first part.
part-below : (n : NavItem) (rest : String) → IsLink n → part ((n.href <> "/") <> rest) ≡ name n
part-below n rest (whole, plain) =
    let joined : (n.href <> "/") <> rest ≡ "/" <> (name n <> ("/" <> rest)) =
      append_assoc n.href "/" rest
      ∙ (ap (λ h. h <> ("/" <> rest)) whole ∙ append_assoc "/" (name n) ("/" <> rest)) in
    ap part joined ∙ part-joined (name n) rest plain

-- The first part of a path names the link that is highlighted.
active-part :
    (path : String) (n : NavItem) → IsLink n → is_active path n.href ≡ true → part path ≡ name n
active-part path n l on = elim (Bool-cases (path == n.href)) [
  | inl same ↦ ap part ((eq_iff path n.href).0 same) ∙ part-name n l
  | inr apart ↦
      let below : starts_with path (n.href <> "/") ≡ true = rw apart at on in
      let (rest, e) = (starts_with_iff path (n.href <> "/")).0 below in
      ap part (sym e) ∙ part-below n rest l
]

-- No two names of a list are the same.
abbrev differs : String → List NavItem → Bool
differs t [] = true
differs t (n ∷ ns) = not (t == name n) && differs t ns

abbrev all_differ : List NavItem → Bool
all_differ [] = true
all_differ (n ∷ ns) = differs (name n) ns && all_differ ns

and_true : (a b : Bool) → (a && b) ≡ true → (a ≡ true) × (b ≡ true)
and_true true b e = (refl, e)
and_true false b e = cc

not-true : (b : Bool) → not b ≡ true → b ≡ false
not-true false e = refl
not-true true e = cc

module _ (path : String) where
  abbrev lit : List NavItem → List NavItem
  lit ns = keep (λ n. is_active path n.href) ns

  -- Once the first part of the path is known, links of other names are not highlighted.
  lit-nothing :
      (t : String) (ns : List NavItem)
      → part path ≡ t
      → All IsLink ns
      → differs t ns ≡ true
      → lit ns ≡ []
  lit-nothing t [] e l d = refl
  lit-nothing t (n ∷ ns) e (l, ls) d =
      let (apart, ds) = and_true (not (t == name n)) (differs t ns) d in
      elim (Bool-cases (is_active path n.href)) [
        | inl on ↦ absurd (
            cc (
              not-true (t == name n) apart,
              (eq_iff t (name n)).1 (sym e ∙ active-part path n l on),
            ))
        | inr off ↦ rw (off, lit-nothing t ns e ls ds) refl
      ]

  lit-one : (ns : List NavItem) → All IsLink ns → all_differ ns ≡ true → length (lit ns) ≤ 1
  lit-one [] l d = omega arith
  lit-one (n ∷ ns) (l, ls) d =
      let (apart, ds) = and_true (differs (name n) ns) (all_differ ns) d in
      elim (Bool-cases (is_active path n.href)) [
        | inl on ↦ rw (on, lit-nothing (name n) ns (active-part path n l on) ls apart) (omega arith)
        | inr off ↦ rw off (lit-one ns ls ds)
      ]

nav-IsLink : All IsLink nav
unfolding index_of slice_from
nav-IsLink = (
  (refl, refl),
  (
    (refl, refl),
    (
      (refl, refl),
      (
        (refl, refl),
        (
          (refl, refl),
          ((refl, refl), ((refl, refl), ((refl, refl), ((refl, refl), ((refl, refl), tt))))),
        ),
      ),
    ),
  ),
)

nav-differ : all_differ nav ≡ true
unfolding slice_from
nav-differ = refl

-- On every path, at most one link of the sidebar is highlighted.
pub one_active : (path : String) → length (keep (λ n. is_active path n.href) nav) ≤ 1
one_active path = lit-one path nav nav-IsLink nav-differ
