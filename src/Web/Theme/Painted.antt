-- ===== src/Web/Theme/Painted.antt =====
-- The classes of the root element follow the theme
-- (apps/web/src/components/theme/ThemeProvider.tsx).
use mathlib.Core.Path.{subst}
use ai_gcm.Base.{
  String, ◌≡◌, refl, Bool, true, Bool-cases, inl, inr, List, [], ◌∷◌, ◌++◌, ◌==◌, ◌||◌, ◌&&◌,
  if◌then◌else◌, arith, eq_iff, not,
}
use ai_gcm.Web.Theme.{
  ThemeState, has, remove, add, paint, mount, system_change, set_theme, toggle_theme, Event, mounts,
  changes, toggles, sets, step, steps,
}

has-append : (c : String) (cs ds : List String) → has c (cs ++ ds) ≡ (has c cs || has c ds)
has-append c [] ds = refl
has-append c (d ∷ cs) ds = rw (has-append c cs ds) (ground arith)

has-add : (c d : String) (cs : List String) → has c (add d cs) ≡ (has c cs || (d == c))
has-add c d cs = elim (Bool-cases (has d cs)) [
  | inl there ↦ elim (Bool-cases (d == c)) [
    | inl same ↦
        let held : has c cs ≡ true = subst (λ x. has x cs ≡ true) ((eq_iff d c).0 same) there in
        rw (there, same, held) refl
    | inr apart ↦ rw (there, apart) (ground arith)
  ]
  | inr missing ↦ rw (missing, has-append c cs (d ∷ [])) (ground arith)
]

has-remove : (c d : String) (cs : List String) → has c (remove d cs) ≡ (has c cs && not (d == c))
has-remove c d [] = refl
has-remove c d (x ∷ cs) = grind (arith, has-remove c d cs, eq_iff x d, eq_iff x c, eq_iff d c)

-- The root element has the class `light` exactly when the resolved theme is light, and `dark`
-- exactly when it is dark.
abbrev pub IsPainted : ThemeState → Type 0
IsPainted s =
    (has "light" s.classes ≡ (s.resolved_theme == "light"))
    × (has "dark" s.classes ≡ (s.resolved_theme == "dark"))

has_light-paint : (r : String) (cs : List String) → has "light" (paint r cs) ≡ (r == "light")
has_light-paint r cs =
    rw
      (
        has-add "light" r (remove "dark" (remove "light" cs)),
        has-remove "light" "dark" (remove "light" cs),
        has-remove "light" "light" cs,
      )
      (ground arith)

has_dark-paint : (r : String) (cs : List String) → has "dark" (paint r cs) ≡ (r == "dark")
has_dark-paint r cs =
    rw
      (
        has-add "dark" r (remove "dark" (remove "light" cs)),
        has-remove "dark" "dark" (remove "light" cs),
      )
      (ground arith)

mount-IsPainted : (b : Bool) (s : ThemeState) → IsPainted (mount b s)
unfolding mount
mount-IsPainted b s = (has_light-paint _ s.classes, has_dark-paint _ s.classes)

set_theme-IsPainted : (b : Bool) (t : String) (s : ThemeState) → IsPainted (set_theme b t s)
unfolding set_theme
set_theme-IsPainted b t s = (has_light-paint _ s.classes, has_dark-paint _ s.classes)

change-IsPainted : (b : Bool) (s : ThemeState) → IsPainted s → IsPainted (system_change b s)
unfolding system_change
change-IsPainted b s p = elim (Bool-cases (s.mounted && (s.theme == "system"))) [
  | inl follows ↦
      rw (follows, system_change) (has_light-paint _ s.classes, has_dark-paint _ s.classes)
  | inr fixed ↦ rw (fixed, system_change) p
]

step-IsPainted : (e : Event) (s : ThemeState) → IsPainted s → IsPainted (step s e)
unfolding toggle_theme
step-IsPainted (mounts b) s p = mount-IsPainted b s
step-IsPainted (changes b) s p = change-IsPainted b s p
step-IsPainted (toggles b) s p =
    set_theme-IsPainted b (if s.resolved_theme == "dark" then "light" else "dark") s
step-IsPainted (sets b t) s p = set_theme-IsPainted b t s

steps-IsPainted : (es : List Event) (s : ThemeState) → IsPainted s → IsPainted (steps s es)
steps-IsPainted [] s p = p
steps-IsPainted (e ∷ es) s p = steps-IsPainted es (step s e) (step-IsPainted e s p)

-- From the first effect on, whatever is stored, and whatever the user chooses and the system
-- changes to, the root element has the class `light` exactly when the resolved theme is light, and
-- `dark` exactly when it is dark; so never both.
pub mounted-IsPainted :
    (b : Bool) (s : ThemeState) (es : List Event) → IsPainted (steps (mount b s) es)
mounted-IsPainted b s es = steps-IsPainted es (mount b s) (mount-IsPainted b s)
