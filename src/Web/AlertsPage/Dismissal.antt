-- ===== src/Web/AlertsPage/Dismissal.antt =====
-- What dismissing alerts changes (apps/web/src/app/(dashboard)/alerts/page.tsx).
use ai_gcm.Base.{
  ℕ, ◌+◌, String, ◌≡◌, refl, Bool-cases, inl, inr, not, ◌&&◌, List, [], ◌∷◌, length, ◌==◌, arith,
}
use mathlib.Core.Path.{ap₂}
use ai_gcm.Web.AlertsPage.{Alert, keep, unread, mark_read, mark_if, dismiss, dismiss_all}

-- The number of unread alerts with the id.
abbrev pub unread_with : String → List Alert → ℕ
unread_with id alerts = length (keep (λ a. not a.read && (a.id == id)) alerts)

unread-dismiss :
    (id : String) (as' : List Alert) → unread (dismiss id as') + unread_with id as' ≡ unread as'
unfolding dismiss
unread-dismiss id [] = refl
unread-dismiss id (a ∷ as') = elim (Bool-cases (a.id == id)) [
  | inl hit ↦ elim (Bool-cases a.read) [
    | inl seen ↦ rw (hit, seen) (unread-dismiss id as')
    | inr new ↦ rw (hit, new) (omega (arith, unread-dismiss id as'))
  ]
  | inr miss ↦ elim (Bool-cases a.read) [
    | inl seen ↦ rw (miss, seen) (unread-dismiss id as')
    | inr new ↦ rw (miss, new) (omega (arith, unread-dismiss id as'))
  ]
]

mark-mark_if : (id : String) (a : Alert) → mark_read (mark_if id a) ≡ mark_read a
mark-mark_if id a = elim (Bool-cases (a.id == id)) [
  | inl hit ↦ rw hit refl
  | inr miss ↦ rw miss refl
]

dismiss_all-dismiss :
    (id : String) (as' : List Alert) → dismiss_all (dismiss id as') ≡ dismiss_all as'
unfolding dismiss dismiss_all
dismiss_all-dismiss id [] = refl
dismiss_all-dismiss id (a ∷ as') =
    ap₂ (λ x xs. x ∷ xs) (mark-mark_if id a) (dismiss_all-dismiss id as')

unread-dismiss_all : (as' : List Alert) → unread (dismiss_all as') ≡ 0
unfolding dismiss_all
unread-dismiss_all [] = refl
unread-dismiss_all (a ∷ as') = unread-dismiss_all as'

-- Dismissing an alert takes the unread alerts with its id, and no others, off the number of unread
-- alerts, and changes nothing but whether alerts are read; dismissing all leaves none unread.
pub dismissal :
    (id : String) (as' : List Alert)
    → (unread (dismiss id as') + unread_with id as' ≡ unread as')
      × (dismiss_all (dismiss id as') ≡ dismiss_all as')
      × (unread (dismiss_all as') ≡ 0)
dismissal id as' = (unread-dismiss id as', dismiss_all-dismiss id as', unread-dismiss_all as')
