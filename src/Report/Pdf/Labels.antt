-- ===== src/Report/Pdf/Labels.antt =====
-- The short forms of counts and of names in a PDF report (formatTokens and the names of the bars,
-- services/report-service/src/renderer/pdf.ts).
use Prim.Native.Char.{Char, code}
use Prim.Native.String.{◌++◌ as ◌<>◌, [] as ε, ◌∷◌ as ◌∷s◌}
use mathlib.Core.Path.{subst}
use text.Mathlib.TextLemmas.{nil-append, cons-append}
use ai_gcm.Base.{
  ℕ, zero, suc, ◌+◌, ◌-◌, ◌≤◌, ◌<◌, ◌≡◌, refl, sym, ap, ◌∙◌, ◌⊎◌, inl, inr, String, true, false,
  Bool-cases, leb, if◌then◌else◌, arith,
}
use ai_gcm.Report.Pdf.{Doubles, units_of, slice_units, spaces, pad_end, format_tokens}
use ai_gcm.Report.Pdf.Body.{bar_label}

-- The length of a character and of a text in JavaScript.
abbrev pub wide : Char → ℕ
wide c = if leb 65536 (code c) then 2 else 1

abbrev pub units : String → ℕ
units ε = 0
units (c ∷s s) = wide c + units s

abbrev pub IsBlank : String → Type 0
IsBlank ε = Unit
IsBlank (c ∷s s) = (code c ≡ 32) × IsBlank s

-- A count is given in millions, in thousands, or in full.
abbrev pub IsCount : {F : Type 0} → Doubles F → F → String → Type 0
IsCount js n t =
    ((js.at_least n (js.dec 1000000 0) ≡ true)
      × (t ≡ js.to_fixed (js.div n (js.dec 1000000 0)) 1 <> "M"))
    ⊎ (((js.at_least n (js.dec 1000000 0) ≡ false)
          × (js.at_least n (js.dec 1000 0) ≡ true)
          × (t ≡ js.to_fixed (js.div n (js.dec 1000 0)) 1 <> "K"))
        ⊎ ((js.at_least n (js.dec 1000000 0) ≡ false)
            × (js.at_least n (js.dec 1000 0) ≡ false)
            × (t ≡ js.to_locale_string n)))

pub format_tokens-IsCount :
    {F : Type 0} (js : Doubles F) (n : F) → IsCount js n (format_tokens js n)
format_tokens-IsCount js n = elim (Bool-cases (js.at_least n (js.dec 1000000 0))) [
  | inl millions ↦ inl (millions, rw millions refl)
  | inr fewer ↦ elim (Bool-cases (js.at_least n (js.dec 1000 0))) [
    | inl thousands ↦ inr (inl (fewer, thousands, rw (fewer, thousands) refl))
    | inr few ↦ inr (inr (fewer, few, rw (fewer, few) refl))
  ]
]

-- No character of the rest goes into the room that is left.
abbrev pub Full : (room : ℕ) → (cut : String) → Type 0
Full room ε = Unit
Full room (c ∷s s) = room < wide c

-- `s` is `kept` with what is cut off, and `kept` is the longest such part of at most `n` units.
pub record Cut (n : ℕ) (s kept : String) : Type 0 where
  pub rest : String
  pub whole : s ≡ kept <> rest
  pub short : units kept ≤ n
  pub longest : Full (n - units kept) rest

sum_le : (w u n : ℕ) → leb w n ≡ true → u ≤ n - w → w + u ≤ n
sum_le w u n fits short = let fit : w ≤ n = ground arith in omega arith

sub_sum : (n w u : ℕ) → n - w - u ≡ n - (w + u)
sub_sum n w u = omega arith

apart_lt : (w n : ℕ) → leb w n ≡ false → n - 0 < w
apart_lt w n over = ground arith

slice_units-Cut : (n : ℕ) (s : String) → Cut n s (slice_units n s)
slice_units-Cut n ε = record {
  rest = ε;
  whole = sym (nil-append ε);
  short = omega arith;
  longest = tt;
}
slice_units-Cut n (c ∷s s) = elim (Bool-cases (leb (units_of c) n)) [
  | inl fits ↦
      let next = slice_units-Cut (n - wide c) s in
      rw fits (record {
        rest = next.rest;
        whole =
            ap (λ t. c ∷s t) next.whole
            ∙ sym (cons-append c (slice_units (n - wide c) s) next.rest);
        short = sum_le (wide c) _ n fits next.short;
        longest =
            subst (λ k. Full k next.rest) (sub_sum n (wide c) (units (slice_units (n - wide c) s)))
              next.longest;
      })
  | inr over ↦ rw over (record {
    rest = c ∷s s;
    whole = sym (nil-append (c ∷s s));
    short = omega arith;
    longest = apart_lt (wide c) n over;
  })
]

IsBlank-append : (s t : String) → IsBlank s → IsBlank t → IsBlank (s <> t)
IsBlank-append ε t p q = rw (nil-append t) q
IsBlank-append (c ∷s s) t p q = rw (cons-append c s t) (p.0, IsBlank-append s t p.1 q)

spaces-IsBlank : (n : ℕ) → IsBlank (spaces n)
spaces-IsBlank zero = tt
spaces-IsBlank (suc n) = IsBlank-append " " (spaces n) (refl, tt) (spaces-IsBlank n)

units-append : (s t : String) → units (s <> t) ≡ units s + units t
units-append ε t = ap units (nil-append t) ∙ omega arith
units-append (c ∷s s) t = ap units (cons-append c s t) ∙ omega (arith, units-append s t)

units-spaces : (n : ℕ) → units (spaces n) ≡ n
units-spaces zero = refl
units-spaces (suc n) = units-append " " (spaces n) ∙ omega (arith, units-spaces n)

no_less : (n : ℕ) → n ≡ n - 0
no_less n = omega arith

pad_end-spaces : (n : ℕ) (s : String) → pad_end n s ≡ s <> spaces (n - units s)
pad_end-spaces n ε = ap spaces (no_less n) ∙ sym (nil-append (spaces (n - 0)))
pad_end-spaces n (c ∷s s) =
    ap (λ t. c ∷s t)
      (pad_end-spaces (n - wide c) s ∙ ap (λ k. s <> spaces k) (sub_sum n (wide c) (units s)))
    ∙ sym (cons-append c s (spaces (n - units (c ∷s s))))

-- The first characters of a name, as many as 25 units have room for, and blanks up to 26 units.
pub record IsLabel (name t : String) : Type 0 where
  pub kept : String
  pub cut : Cut 25 name kept
  pub pad : String
  pub added : t ≡ kept <> pad
  pub blank : IsBlank pad
  pub filled : units t ≡ 26

pub bar_label-IsLabel :
    {F : Type 0} (js : Doubles F) (name : String) → IsLabel name (bar_label js name)
bar_label-IsLabel js name =
    let kept : String = slice_units 25 name in
    let cut : Cut 25 name kept = slice_units-Cut 25 name in
    record {
      kept = kept;
      cut = cut;
      pad = spaces (26 - units kept);
      added = pad_end-spaces 26 kept;
      blank = spaces-IsBlank (26 - units kept);
      filled =
          ap units (pad_end-spaces 26 kept)
          ∙ units-append kept (spaces (26 - units kept))
          ∙ omega (arith, units-spaces (26 - units kept), cut.short);
    }
