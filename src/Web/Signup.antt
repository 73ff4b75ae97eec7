-- ===== src/Web/Signup.antt =====
-- The form of a new organisation (apps/web/src/app/(auth)/signup/page.tsx): the slug made of its
-- name, the strength of a password, and what the form checks before it sends.
pub mod Slugs
use Prim.Native.String.{String, [], ◌∷◌, ◌++◌}
use Prim.Native.Char.{Char, code}
use mathlib.Core.List
use ai_gcm.Base.{
  ℕ, zero, suc, ◌+◌, Bool, true, false, not, ◌&&◌, ◌||◌, leb, ltb, nat_eq, Option, none, some, ◌==◌,
  if◌then◌else◌,
}
use ai_gcm.Js.Text.{size}

abbrev pub between : ℕ → ℕ → ℕ → Bool
between low high n = leb low n && leb n high

-- `[a-z0-9]`.
abbrev pub is_slug_char : Char → Bool
is_slug_char c = between b'a' b'z' (code c) || between b'0' b'9' (code c)

-- `replace(/[^a-z0-9]+/g, '-')`: a run of other characters is one dash. `in_run` says that the
-- character before belongs to a run, whose dash is written already.
unfoldable pub dashed : (in_run : Bool) → String → String
dashed in_run [] = []
dashed in_run (c ∷ s) =
    let kept = dashed false s in
    let dropped = dashed true s in
    if is_slug_char c then c ∷ kept else if in_run then dropped else "-" ∷ dropped

abbrev pub is_dash : Char → Bool
is_dash c = nat_eq (code c) b'-'

-- `replace(/(^-|-$)/g, '')`: one dash at the start, and one at the end.
unfoldable pub drop_first_dash : String → String
drop_first_dash [] = []
drop_first_dash (c ∷ s) = if is_dash c then s else c ∷ s

unfoldable pub drop_last_dash : String → String
drop_last_dash [] = []
drop_last_dash (c ∷ []) = if is_dash c then [] else c ∷ []
drop_last_dash (c ∷ (d ∷ s)) = c ∷ drop_last_dash (d ∷ s)

-- handleOrgNameChange, for the lower-case text of the name.
unfoldable pub slug_of : (lower_case : String) → String
unfolding dashed drop_first_dash drop_last_dash
slug_of lower_case = drop_last_dash (drop_first_dash (dashed false lower_case))

abbrev pub any_char : (Char → Bool) → String → Bool
any_char p [] = false
any_char p (c ∷ s) = p c || any_char p s

abbrev pub is_upper : Char → Bool
is_upper c = between b'A' b'Z' (code c)

abbrev pub is_digit : Char → Bool
is_digit c = between b'0' b'9' (code c)

abbrev pub is_special : Char → Bool
is_special c = not (is_upper c || between b'a' b'z' (code c) || is_digit c)

abbrev pub point_if : Bool → ℕ
point_if b = if b then 1 else 0

-- getPasswordStrength; `length` is the number of UTF-16 units of the password.
abbrev pub password_strength : (length : ℕ) → String → ℕ
password_strength length pass =
    point_if (leb 8 length)
    + point_if (any_char is_upper pass)
    + point_if (any_char is_digit pass)
    + point_if (any_char is_special pass)
