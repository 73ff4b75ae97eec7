-- ===== src/Web/Overview/Reading.antt =====
-- What the events of the overview page do to its alerts
-- (apps/web/src/app/(dashboard)/overview/page.tsx).
use ai_gcm.Base.{◌≤◌, ◌≡◌, refl, inl, inr, String, Bool-cases, List, [], ◌∷◌, ◌==◌, arith}
use ai_gcm.Web.Overview.{
  AlertItem, unread, mark, mark_alert_read, mark_all_alerts_read, dismiss_alert, Overview, Event,
  set_period, open_drawer, close_drawer, go_to_alerts, mark_all, click_alert, mark_read, dismiss,
  handle, handle_all,
}

-- The alerts are some of the others, in their order, unread ones among them marked as read or not.
pub data Remains : List AlertItem → List AlertItem → Type 0 where
  none_left : Remains [] []
  gone : {a : AlertItem} {as' bs : List AlertItem} → Remains as' bs → Remains as' (a ∷ bs)
  stays : {a : AlertItem} {as' bs : List AlertItem} → Remains as' bs → Remains (a ∷ as') (a ∷ bs)
  reads :
      {a : AlertItem} {as' bs : List AlertItem} → Remains as' bs → Remains (mark a ∷ as') (a ∷ bs)

Remains-refl : (as' : List AlertItem) → Remains as' as'
Remains-refl [] = none_left
Remains-refl (a ∷ as') = stays (Remains-refl as')

Remains-trans : {as' bs cs : List AlertItem} → Remains as' bs → Remains bs cs → Remains as' cs
Remains-trans r (gone q) = gone (Remains-trans r q)
Remains-trans none_left none_left = none_left
Remains-trans (gone r) (stays q) = gone (Remains-trans r q)
Remains-trans (stays r) (stays q) = stays (Remains-trans r q)
Remains-trans (reads r) (stays q) = reads (Remains-trans r q)
Remains-trans (gone r) (reads q) = gone (Remains-trans r q)
Remains-trans (stays r) (reads q) = reads (Remains-trans r q)
Remains-trans (reads r) (reads q) = reads (Remains-trans r q)

marked_if-Remains : (id : String) (as' : List AlertItem) → Remains (mark_alert_read id as') as'
unfolding mark_alert_read
marked_if-Remains id [] = none_left
marked_if-Remains id (a ∷ as') = elim (Bool-cases (a.id == id)) [
  | inl same ↦ rw same (reads (marked_if-Remains id as'))
  | inr apart ↦ rw apart (stays (marked_if-Remains id as'))
]

marked-Remains : (as' : List AlertItem) → Remains (mark_all_alerts_read as') as'
unfolding mark_all_alerts_read
marked-Remains [] = none_left
marked-Remains (a ∷ as') = reads (marked-Remains as')

dismissed-Remains : (id : String) (as' : List AlertItem) → Remains (dismiss_alert id as') as'
unfolding dismiss_alert
dismissed-Remains id [] = none_left
dismissed-Remains id (a ∷ as') = elim (Bool-cases (a.id == id)) [
  | inl same ↦ rw same (gone (dismissed-Remains id as'))
  | inr apart ↦ rw apart (stays (dismissed-Remains id as'))
]

handle-Remains : (s : Overview) (e : Event) → Remains (handle s e).alerts s.alerts
unfolding handle
handle-Remains s (set_period p) = Remains-refl s.alerts
handle-Remains s open_drawer = Remains-refl s.alerts
handle-Remains s close_drawer = Remains-refl s.alerts
handle-Remains s go_to_alerts = Remains-refl s.alerts
handle-Remains s mark_all = marked-Remains s.alerts
handle-Remains s (click_alert id) = marked_if-Remains id s.alerts
handle-Remains s (mark_read id) = marked_if-Remains id s.alerts
handle-Remains s (dismiss id) = dismissed-Remains id s.alerts

handle_all-Remains : (s : Overview) (es : List Event) → Remains (handle_all s es).alerts s.alerts
unfolding handle_all
handle_all-Remains s [] = Remains-refl s.alerts
handle_all-Remains s (e ∷ es) =
    Remains-trans (handle_all-Remains (handle s e) es) (handle-Remains s e)

unread-Remains : {as' bs : List AlertItem} → Remains as' bs → unread as' ≤ unread bs
unread-Remains none_left = omega arith
unread-Remains (gone {a} r) = elim (Bool-cases a.read) [
  | inl read ↦ rw read (unread-Remains r)
  | inr fresh ↦ rw fresh (omega (arith, unread-Remains r))
]
unread-Remains (stays {a} r) = elim (Bool-cases a.read) [
  | inl read ↦ rw read (unread-Remains r)
  | inr fresh ↦ rw fresh (omega (arith, unread-Remains r))
]
unread-Remains (reads {a} r) = elim (Bool-cases a.read) [
  | inl read ↦ rw read (unread-Remains r)
  | inr fresh ↦ rw fresh (omega (arith, unread-Remains r))
]

marked-none : (as' : List AlertItem) → unread (mark_all_alerts_read as') ≡ 0
unfolding mark_all_alerts_read
marked-none [] = refl
marked-none (a ∷ as') = marked-none as'

all_marked :
    (s : Overview) → unread (handle s mark_all).alerts ≡ unread (mark_all_alerts_read s.alerts)
unfolding handle
all_marked s = refl

-- Whatever happens on the page, the alerts that it shows are alerts that it had, in their order,
-- some of them marked as read, and the number on the badge does not rise; once all alerts are
-- marked as read, it is zero from then on.
pub handle_all-reads :
    (s : Overview) (es : List Event)
    → Remains (handle_all s es).alerts s.alerts
      × ((unread (handle_all s es).alerts ≤ unread s.alerts)
          × (unread (handle_all (handle s mark_all) es).alerts ≡ 0))
handle_all-reads s es =
    let r = handle_all-Remains s es in
    let q = unread-Remains (handle_all-Remains (handle s mark_all) es) in
    (r, (unread-Remains r, omega (arith, q, marked-none s.alerts, all_marked s)))
