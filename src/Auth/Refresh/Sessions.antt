-- ===== src/Auth/Refresh/Sessions.antt =====
-- Any sequence of logins, refreshes and logouts, and what a used cookie is worth after it
-- (services/auth-service/src/session/refresh.ts).
use ai_gcm.Base.{ℕ, ◌+◌, String, ◌≡◌, refl, inl, inr, none, some, List, [], ◌∷◌, Option-cases}
use ai_gcm.Js.{Value}
use ai_gcm.Js.Text.{index_of, slice_to, slice_from}
use ai_gcm.Effect.{ok, throw, done, await, plain}
use ai_gcm.Effect.Run.{run}
use ai_gcm.Effect.Keeps.{Keeps, Keeps-done, Keeps-throw, Keeps-await}
use ai_gcm.Auth.Calls.{Call, redis_del, AuthEnv, Secrets}
use ai_gcm.Auth.Refresh.{
  session_key, create_refresh_session, Rotated, rotate_session, rotate_refresh_session,
  revoke_refresh_session,
}
use ai_gcm.Auth.Refresh.Spending.{Spent-create, Spent-rotate}
use ai_gcm.Auth.Refresh.Replay.{rotate-Spent, rotate-fails}
use ai_gcm.Auth.Refresh.Store.{Failed, IsRedis, HasFreshIds, Spent, Spent-cons}

-- A request that reaches the session store.
pub data Op : Type 0 where
  login : (user_id : Value) → Op
  refresh logout : (cookie : String) → Op

-- The history after a request, whatever its outcome.
abbrev pub serve_op : Secrets → AuthEnv → List Call → Op → List Call
serve_op s env h (login u) = (run env h (create_refresh_session s u)).1
serve_op s env h (refresh c) = (run env h (rotate_refresh_session s c)).1
serve_op s env h (logout c) = (run env h (revoke_refresh_session c)).1

abbrev pub serve : Secrets → AuthEnv → List Call → List Op → List Call
serve s env h [] = h
serve s env h (op ∷ ops) = serve s env (serve_op s env h op) ops

-- The first dot of the cookie decides.
pub rotate_refresh-dot :
    (s : Secrets) (c : String) (i : ℕ)
    → index_of b'.' c ≡ some i
    → rotate_refresh_session s c ≡ rotate_session s (slice_to i c) (slice_from (i + 1) c)
unfolding rotate_refresh_session
rotate_refresh-dot s c i found = rw (found, rotate_refresh_session)

pub rotate_refresh-no_dot :
    (s : Secrets) (c : String)
    → index_of b'.' c ≡ none
    → rotate_refresh_session s c ≡ throw (plain "malformed refresh token")
unfolding rotate_refresh_session
rotate_refresh-no_dot s c missing = rw (missing, rotate_refresh_session)

pub revoke-dot :
    (c : String) (i : ℕ)
    → index_of b'.' c ≡ some i
    → revoke_refresh_session c ≡ await (redis_del (session_key (slice_to i c)))
unfolding revoke_refresh_session
revoke-dot c i found = rw (found, revoke_refresh_session)

pub revoke-no_dot : (c : String) → index_of b'.' c ≡ none → revoke_refresh_session c ≡ done tt
unfolding revoke_refresh_session
revoke-no_dot c missing = rw (missing, revoke_refresh_session)

module _ (s : Secrets) {env : AuthEnv} (ids : HasFreshIds env) (k : String) where
  Spent-refresh : (c : String) → Keeps env (Spent env k) (rotate_refresh_session s c)
  Spent-refresh c = elim (Option-cases (index_of b'.' c)) [
    | inl missing ↦ rw (rotate_refresh-no_dot s c missing) (Keeps-throw _)
    | inr (i, found) ↦ rw (rotate_refresh-dot s c i found) (Spent-rotate k ids s (slice_to i c) _)
  ]

  Spent-logout : (c : String) → Keeps env (Spent env k) (revoke_refresh_session c)
  Spent-logout c = elim (Option-cases (index_of b'.' c)) [
    | inl missing ↦ rw (revoke-no_dot c missing) (Keeps-done tt)
    | inr (i, found) ↦
        let key : String = session_key (slice_to i c) in
        rw (revoke-dot c i found)
          (Keeps-await (redis_del key) (λ h. Spent-cons env k (redis_del key) h (λ x. x)))
  ]

  Spent-serve : (ops : List Op) (h : List Call) → Spent env k h → Spent env k (serve s env h ops)
  Spent-serve [] h sp = sp
  Spent-serve (login u ∷ ops) h sp = Spent-serve ops _ ((Spent-create k ids s u).at h sp)
  Spent-serve (refresh c ∷ ops) h sp = Spent-serve ops _ ((Spent-refresh c).at h sp)
  Spent-serve (logout c ∷ ops) h sp = Spent-serve ops _ ((Spent-logout c).at h sp)

module _ (s : Secrets) {env : AuthEnv} (redis : IsRedis env) (c : String) where
  used-Spent :
      HasFreshIds env
      → (h : List Call) (i : ℕ) {r : Rotated} → index_of b'.' c ≡ some i
      → (run env h (rotate_refresh_session s c)).0 ≡ ok r
      → Spent env (session_key (slice_to i c)) (run env h (rotate_refresh_session s c)).1
  used-Spent ids h i found =
      rw (rotate_refresh-dot s c i found)
        (rotate-Spent redis s (slice_to i c) (slice_from (i + 1) c) ids h)

  used-fails :
      (h : List Call) (i : ℕ)
      → index_of b'.' c ≡ some i
      → Spent env (session_key (slice_to i c)) h
      → Failed (run env h (rotate_refresh_session s c)).0
  used-fails h i found sp =
      rw (rotate_refresh-dot s c i found)
        (rotate-fails redis s (slice_to i c) (slice_from (i + 1) c) h sp)

  malformed-fails :
      (h : List Call) → index_of b'.' c ≡ none → Failed (run env h (rotate_refresh_session s c)).0
  malformed-fails h missing = rw (rotate_refresh-no_dot s c missing) (_, refl)

-- A refresh cookie that has been exchanged once is refused ever after, whatever logins, refreshes
-- and logouts are served in between, provided that Redis returns only what was written and not
-- deleted, and that new session ids are new.
pub rotate_once :
    (s : Secrets) (env : AuthEnv) (h : List Call) (c : String) {r : Rotated} (ops : List Op)
    → IsRedis env
    → HasFreshIds env
    → (run env h (rotate_refresh_session s c)).0 ≡ ok r
    → Failed
        (run env (serve s env (serve_op s env h (refresh c)) ops) (rotate_refresh_session s c)).0
rotate_once s env h c ops redis ids e = elim (Option-cases (index_of b'.' c)) [
  | inl missing ↦ malformed-fails s redis c _ missing
  | inr (i, found) ↦
      used-fails s redis c _ i found
        (Spent-serve s ids _ ops _ (used-Spent s redis c ids h i found e))
]
