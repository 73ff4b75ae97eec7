-- ===== src/Web/Signup/Slugs.antt =====
-- Which slugs the form makes (apps/web/src/app/(auth)/signup/page.tsx).
use Prim.Native.String.{String, [], ◌∷◌}
use Prim.Native.Char.{Char}
use ai_gcm.Base.{◌≡◌, refl, ◌⊎◌, inl, inr, Bool, true, false, Bool-cases, arith}
use ai_gcm.Web.Signup.{is_slug_char, is_dash, dashed, drop_first_dash, drop_last_dash, slug_of}

-- Letters a to z, digits and dashes, where no dash follows a dash; `b` says that the character
-- before is a dash.
abbrev Loose : (b : Bool) → String → Type 0
Loose b [] = Unit
Loose b (c ∷ s) =
    ((is_slug_char c ≡ true) × Loose false s) ⊎ ((is_dash c ≡ true) × ((b ≡ false) × Loose true s))

-- The same, where the text does not end in a dash either.
abbrev pub IsTame : (b : Bool) → String → Type 0
IsTame b [] = b ≡ false
IsTame b (c ∷ s) =
    ((is_slug_char c ≡ true) × IsTame false s)
    ⊎ ((is_dash c ≡ true) × ((b ≡ false) × IsTame true s))

slug_char-not_dash : (c : Char) → is_slug_char c ≡ true → is_dash c ≡ false
slug_char-not_dash c h = ground arith

dashed-Loose : (b : Bool) (s : String) → Loose b (dashed b s)
unfolding dashed
dashed-Loose b [] = tt
dashed-Loose true (c ∷ s) = elim (Bool-cases (is_slug_char c)) [
  | inl kept ↦ rw (kept, dashed) (inl (kept, dashed-Loose false s))
  | inr other ↦ rw (other, dashed) (dashed-Loose true s)
]
dashed-Loose false (c ∷ s) = elim (Bool-cases (is_slug_char c)) [
  | inl kept ↦ rw (kept, dashed) (inl (kept, dashed-Loose false s))
  | inr other ↦ rw (other, dashed) (inr (refl, (refl, dashed-Loose true s)))
]

drop_first_dash-Loose : (s : String) → Loose false s → Loose true (drop_first_dash s)
unfolding drop_first_dash
drop_first_dash-Loose [] l = tt
drop_first_dash-Loose (c ∷ s) (inl (kept, l)) =
    rw (slug_char-not_dash c kept, drop_first_dash) (inl (kept, l))
drop_first_dash-Loose (c ∷ s) (inr (dash, (p, l))) = rw (dash, drop_first_dash) l

-- A character that is no dash stays in front.
kept-IsTame :
    (b : Bool) (c : Char) (s : String)
    → is_slug_char c ≡ true
    → IsTame false (drop_last_dash s)
    → IsTame b (drop_last_dash (c ∷ s))
unfolding drop_last_dash
kept-IsTame b c [] kept t = rw (slug_char-not_dash c kept, drop_last_dash) (inl (kept, refl))
kept-IsTame b c (d ∷ s) kept t = inl (kept, t)

drop_last_dash-IsTame : (s : String) → Loose false s → IsTame false (drop_last_dash s)
unfolding drop_last_dash
drop_last_dash-IsTame [] l = refl
drop_last_dash-IsTame (c ∷ s) (inl (kept, l)) =
    kept-IsTame false c s kept (drop_last_dash-IsTame s l)
drop_last_dash-IsTame (c ∷ []) (inr (dash, p)) = rw (dash, drop_last_dash) refl
drop_last_dash-IsTame (c ∷ (d ∷ s)) (inr (dash, (p, inl (kept, l)))) =
    inr (dash, (refl, kept-IsTame true d s kept (drop_last_dash-IsTame s l)))
drop_last_dash-IsTame (c ∷ (d ∷ s)) (inr (dash, (p, inr (dash', (q, l))))) = cc

ends-IsTame : (s : String) → Loose true s → (drop_last_dash s ≡ []) ⊎ IsTame true (drop_last_dash s)
unfolding drop_last_dash
ends-IsTame [] l = inl refl
ends-IsTame (c ∷ s) (inl (kept, l)) = inr (kept-IsTame true c s kept (drop_last_dash-IsTame s l))
ends-IsTame (c ∷ s) (inr (dash, (q, l))) = cc

-- Whatever name is typed, the slug is empty, or it has only the letters a to z, digits and dashes,
-- with no dash at its start or end and no two dashes in a row.
pub slug_of-IsTame : (t : String) → (slug_of t ≡ []) ⊎ IsTame true (slug_of t)
unfolding slug_of
slug_of-IsTame t =
    ends-IsTame (drop_first_dash (dashed false t))
      (drop_first_dash-Loose (dashed false t) (dashed-Loose false t))
