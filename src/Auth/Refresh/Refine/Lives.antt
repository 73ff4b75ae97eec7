-- ===== src/Auth/Refresh/Refine/Lives.antt =====
-- A session lives until its own cookie is used (services/auth-service/src/session/refresh.ts).
use ai_gcm.Base.{
  ℕ, ◌+◌, String, ◌≡◌, ◌≢◌, refl, sym, ap, ◌∙◌, Bool-cases, inl, inr, some, List, [], ◌∷◌, ◌++◌,
  ◌==◌, eq_iff, eq_refl, All,
}
use mathlib.Core.Path.{subst}
use mathlib.Core.Option.{some-injective}
use native.Mathlib.Numerals.{add-one}
use ai_gcm.Js.{str}
use ai_gcm.Js.Text.{
  Lacks, index_of, slice_to, slice_from, size, index_of-joined, slice_to-joined, slice_from-joined,
}
use ai_gcm.Auth.Calls.{Call, AuthEnv, Secrets}
use ai_gcm.Auth.Refresh.{cookie}
use ai_gcm.Auth.Refresh.Refine.{
  Session, Sessions, no_sessions, open_at, close_at, Request, login, refresh, logout, Reply, opened,
  renewed, Splits, IsNew, Step, opens, renews, refuses_malformed, refuses_unknown, refuses_forged,
  revokes, closes, ignores, serve_request, history,
}
use ai_gcm.Auth.Refresh.Refine.Represents.{IsWorking, Represents, Represents-nothing}
use ai_gcm.Auth.Refresh.Refine.Simulation.{request-Simulates, history-Represents}

-- The request was answered by a cookie of the user's.
pub data Hands (user c : String) : Request → Reply → Type 0 where
  by_login : Hands user c (login user) (opened c)
  by_refresh : {c' : String} → Hands user c (refresh c') (renewed (str user) c)

-- The request carries no cookie with the session id of `c`.
abbrev pub Elsewhere : String → Request → Type 0
Elsewhere c (login user) = Unit
Elsewhere c (refresh c') =
    (i j : ℕ) → index_of b'.' c ≡ some i → index_of b'.' c' ≡ some j → slice_to i c ≢ slice_to j c'
Elsewhere c (logout c') =
    (i j : ℕ) → index_of b'.' c ≡ some i → index_of b'.' c' ≡ some j → slice_to i c ≢ slice_to j c'

-- The map holds the session of the cookie, for the user.
record Live (st : Sessions) (user c : String) : Type 0 where
  id : String
  token : String
  split : Splits c id token
  held : st id ≡ some (record { user = user; token = token })

cookie-Splits : (id token : String) → Lacks b'.' id → Splits (cookie id token) id token
cookie-Splits id token plain_id = (
  size id,
  index_of-joined token id plain_id,
  slice_to-joined token id,
  rw (add-one (size id)) (slice_from-joined token id),
)

open_at-same : (id : String) (x : Session) (st : Sessions) → open_at id x st id ≡ some x
open_at-same id x st = rw (eq_refl id) refl

open_at-other : (id j : String) (x : Session) (st : Sessions) → id ≢ j → open_at id x st j ≡ st j
open_at-other id j x st apart = elim (Bool-cases (id == j)) [
  | inl same ↦ absurd (apart ((eq_iff id j).0 same))
  | inr other ↦ rw other refl
]

close_at-other : (id j : String) (st : Sessions) → id ≢ j → close_at id st j ≡ st j
close_at-other id j st apart = elim (Bool-cases (id == j)) [
  | inl same ↦ absurd (apart ((eq_iff id j).0 same))
  | inr other ↦ rw other refl
]

handed-Live :
    {G : String → Type 0} (user c : String) {st st' : Sessions} {q : Request} {a : Reply}
    → Hands user c q a
    → Step G st q a st'
    → Live st' user c
handed-Live user c {st} by_login (opens id token new) = record {
  id = id;
  token = token;
  split = cookie-Splits id token new.1;
  held = open_at-same id _ st;
}
handed-Live user c {st} by_refresh (renews u id token id' token' split held new) = record {
  id = id';
  token = token';
  split = cookie-Splits id' token' new.1;
  held = open_at-same id' _ (close_at id st);
}

-- A new id is not the id of a session in the map.
new_apart : (st : Sessions) {id j : String} {x : Session} → IsNew id st → st j ≡ some x → id ≢ j
new_apart st new held same = cc (new.0, held, ap st same)

split_apart :
    (c c' : String) {id j t t' : String}
    → Splits c id t
    → Splits c' j t'
    → Elsewhere c (refresh c')
    → id ≢ j
split_apart c c' (i, found, to, from) (i', found', to', from') away same =
    away i i' found found' (to ∙ (same ∙ sym to'))

-- A request elsewhere leaves the session in the map.
kept-Live :
    {G : String → Type 0} (user c : String) {st st' : Sessions} {q : Request} {a : Reply}
    → Live st user c
    → Elsewhere c q
    → Step G st q a st'
    → Live st' user c
kept-Live user c {st} l away (opens id token new) = record {
  id = l.id;
  token = l.token;
  split = l.split;
  held = open_at-other id l.id _ st (new_apart st new l.held) ∙ l.held;
}
kept-Live user c {st} {q = refresh c'} l away (renews u id token id' token' split held new) =
    let closed =
      close_at-other id l.id st (λ e. split_apart c c' l.split split away (sym e)) ∙ l.held in
    record {
      id = l.id;
      token = l.token;
      split = l.split;
      held =
          open_at-other id' l.id _ (close_at id st) (new_apart (close_at id st) new closed)
          ∙ closed;
    }
kept-Live user c l away (refuses_malformed bad) = l
kept-Live user c l away (refuses_unknown id token split free) = l
kept-Live user c l away (refuses_forged id token split forged) = l
kept-Live user c {st} {q = refresh c'} l away (revokes id token x split held bad) = record {
  id = l.id;
  token = l.token;
  split = l.split;
  held = close_at-other id l.id st (λ e. split_apart c c' l.split split away (sym e)) ∙ l.held;
}
kept-Live user c {st} {q = logout c'} l away (closes id token split) = record {
  id = l.id;
  token = l.token;
  split = l.split;
  held = close_at-other id l.id st (λ e. split_apart c c' l.split split away (sym e)) ∙ l.held;
}
kept-Live user c l away (ignores bad) = l

Splits-unique :
    (c : String) {id token id' token' : String}
    → Splits c id token
    → Splits c id' token'
    → (id ≡ id') × (token ≡ token')
Splits-unique c {id} {token} {id'} {token'} (i, found, to, from) (j, found', to', from') =
    let e : i ≡ j = some-injective i j (sym found ∙ found') in
    (
      sym to ∙ (ap (λ k. slice_to k c) e ∙ to'),
      sym from ∙ (ap (λ k. slice_from (k + 1) c) e ∙ from'),
    )

held_unique :
    (st : Sessions) {id j : String} {x y : Session}
    → j ≡ id
    → st id ≡ some x
    → st j ≡ some y
    → x ≡ y
held_unique st {x = x} {y = y} same held held' =
    some-injective x y (sym held ∙ (ap st (sym same) ∙ held'))

-- The cookie of a session in the map renews it.
Live-renewed :
    {G : String → Type 0} (user c : String) {st st' : Sessions} {a : Reply}
    → (l : Live st user c) → G l.token
    → Step G st (refresh c) a st'
    → (c' : String) × (a ≡ renewed (str user) c')
Live-renewed user c {st} l genuine (renews u id token id' token' split held new) =
    let (same, same') = Splits-unique c l.split split in
    (
      cookie id' token',
      ap (λ x. renewed (str x.user) (cookie id' token')) (held_unique st same held l.held),
    )
Live-renewed user c l genuine (refuses_malformed bad) =
    let (i, found, to, from) = l.split in cc (found, bad)
Live-renewed user c {st} l genuine (refuses_unknown id token split free) =
    let (same, same') = Splits-unique c l.split split in cc (free, l.held, ap st same)
Live-renewed {G} user c l genuine (refuses_forged id token split forged) =
    let (same, same') = Splits-unique c l.split split in absurd (forged (subst G same' genuine))
Live-renewed user c {st} l genuine (revokes id token x split held bad) =
    let (same, same') = Splits-unique c l.split split in
    absurd (bad (ap (λ y. y.token) (held_unique st same held l.held) ∙ same'))

module _ {env : AuthEnv} {s : Secrets} (w : IsWorking env s) where
  after-Live :
      (user c : String) (qs : List Request) (h : List Call) (st : Sessions)
      → Represents env s h st
      → Live st user c
      → All (Elsewhere c) qs
      → (st' : Sessions) × Represents env s (history s env h qs) st' × Live st' user c
  after-Live user c [] h st r l away = (st, r, l)
  after-Live user c (q ∷ qs) h st r l (here, away) =
      let (st', one, r') = request-Simulates w h st q r in
      after-Live user c qs _ st' r' (kept-Live user c l here one) away

history-append :
    (s : Secrets) (env : AuthEnv) (qs qs' : List Request) (h : List Call)
    → history s env h (qs ++ qs') ≡ history s env (history s env h qs) qs'
history-append s env [] qs' h = refl
history-append s env (q ∷ qs) qs' h = history-append s env qs qs' _

-- The cookie that a login or a refresh gives to a user is accepted, for that user, by the first
-- refresh that brings it, whatever requests without its session id are served before it; provided
-- that Redis is a map whose keys do not expire, that jose signs, and verifies what it signed, and
-- that ids are new and hold no dot.
pub session_lives :
    (env : AuthEnv) (s : Secrets) (before after : List Request) (q : Request) (user c : String)
    → IsWorking env s
    → Hands user c q (serve_request s env (history s env [] before) q).0
    → All (Elsewhere c) after
    → (c' : String) × ((serve_request s env
          (history s env [] (before ++ (q ∷ after)))
          (refresh c)).0
        ≡ renewed (str user) c')
session_lives env s before after q user c w handed away =
    let (st, r) = history-Represents w before [] no_sessions (Represents-nothing env s) in
    let (st₁, one, r₁) = request-Simulates w _ st q r in
    let (st₂, r₂, l) = after-Live w user c after _ st₁ r₁ (handed-Live user c handed one) away in
    let (h', by) = r₂.signed l.id _ l.held in
    let (st₃, last, r₃) = request-Simulates w _ st₂ (refresh c) r₂ in
    rw (history-append s env before (q ∷ after) []) (Live-renewed user c l (user, h', by) last)
