-- ===== src/Web/AuditPage/Narrowing.antt =====
-- The filters of the audit page work one by one (apps/web/src/app/(dashboard)/audit/page.tsx).
use ai_gcm.Base.{
  String, ◌≡◌, refl, sym, ◌∙◌, Bool, Bool-cases, inl, inr, not, ◌||◌, ◌&&◌, List, [], ◌∷◌, ◌==◌,
  arith,
}
use ai_gcm.Web.AlertsPage.{keep}
use ai_gcm.Web.AuditPage.{AuditRow, Filters, finds, shows, shown_rows}

abbrev pub has_status : Filters → AuditRow → Bool
has_status f r = (f.status_filter == "all") || (r.status == f.status_filter)

abbrev pub is_flagged : Filters → AuditRow → Bool
is_flagged f r = not f.dlp_only || r.dlp

abbrev pub is_found : (lower : String → String) → Filters → AuditRow → Bool
is_found lower f r = (f.search == "") || finds lower (lower f.search) r

keep-keep :
    {A : Type 0} (p q : A → Bool) (xs : List A) → keep p (keep q xs) ≡ keep (λ x. q x && p x) xs
keep-keep p q [] = refl
keep-keep p q (x ∷ xs) = elim (Bool-cases (q x)) [
  | inl kept ↦ rw (kept, keep-keep p q xs) refl
  | inr out ↦ rw (out, keep-keep p q xs) refl
]

keep-pointwise :
    {A : Type 0} (p q : A → Bool) → ((x : A) → p x ≡ q x) → (xs : List A) → keep p xs ≡ keep q xs
keep-pointwise p q e [] = refl
keep-pointwise p q e (x ∷ xs) = rw (e x, keep-pointwise p q e xs) refl

shows-eq :
    (lower : String → String) (f : Filters) (r : AuditRow)
    → shows lower f r ≡ ((has_status f r && is_flagged f r) && is_found lower f r)
shows-eq lower f r = ground arith

-- The rows shown are those left by the three filters, applied one after the other, in the order of
-- the log.
pub shown_rows-eq :
    (lower : String → String) (f : Filters) (rows : List AuditRow)
    → shown_rows lower f rows
      ≡ keep (is_found lower f) (keep (is_flagged f) (keep (has_status f) rows))
unfolding shown_rows
shown_rows-eq lower f rows =
    keep-pointwise _ _ (shows-eq lower f) rows
    ∙ sym (
        keep-keep (is_found lower f) (is_flagged f) (keep (has_status f) rows)
        ∙ keep-keep (λ x. is_flagged f x && is_found lower f x) (has_status f) rows
        ∙ keep-pointwise _ _ (λ r. ground arith) rows)
