-- ===== src/Auth/Refresh/Refine/Turning.antt =====
-- The calls of one refresh that is accepted, and each of its turns (rotateRefreshSession,
-- services/auth-service/src/session/refresh.ts).
use mathlib.Core.Option
use ai_gcm.Base.{String, ◌≡◌, refl, ap, ◌∙◌, some, List, ◌∷◌, eq_refl}
use ai_gcm.Js.{Value, str, get}
use ai_gcm.Effect.{ok, done, returned, ◌>>=◌}
use ai_gcm.Effect.Turns.{turn}
use ai_gcm.Auth.Calls.{Call, uuid, redis_get, redis_del, Auth, AuthEnv, Secrets}
use ai_gcm.Auth.Jwt.{verify_refresh_token, sign_refresh_token}
use ai_gcm.Auth.Refresh.{
  session_key, cookie, Rotated, rotate_session, fetch_session, settle_found, settle, renew_session,
  reissue, create_refresh_session, issue, save,
}
use ai_gcm.Auth.Refresh.Renewal.{sign_call, verify_call, set_call}
use ai_gcm.Auth.Refresh.Refine.{Sessions}
use ai_gcm.Auth.Refresh.Store.{WasSet}
use ai_gcm.Auth.Refresh.Refine.Represents.{IsWorking, Represents, record_of}

module _ (env : AuthEnv) (s : Secrets) where
  -- The calls of a request up to its reading of the session, when the session is in Redis.
  pub record Reads (user id token : String) (h : List Call) : Type 0 where
    pub payload : Value
    pub known : env h (verify_call s token) ≡ ok payload
    pub sub : get payload "sub" ≡ str user
    pub held :
        env (verify_call s token ∷ h) (redis_get (session_key id))
        ≡ ok (some (record_of (record { user = user; token = token })))

  -- The calls from then on.
  pub record Renews (user id : String) (h : List Call) : Type 0 where
    pub deleted : env h (redis_del (session_key id)) ≡ ok tt
    pub token : String
    pub signed : env (redis_del (session_key id) ∷ h) (sign_call s (str user)) ≡ ok token
    pub new_id : String
    pub drawn : env (sign_call s (str user) ∷ redis_del (session_key id) ∷ h) uuid ≡ ok new_id
    pub unused : WasSet (session_key new_id) h → ⊥
    pub stored :
        env
          (uuid ∷ sign_call s (str user) ∷ redis_del (session_key id) ∷ h)
          (set_call new_id (str user) token)
        ≡ ok tt

  -- The turns of a request: it verifies, reads, deletes, signs, draws an id and writes.
  pub turn-verify :
      (user id token : String) (h : List Call)
      → Reads user id token h
      → turn env h (rotate_session s id token)
        ≡ (fetch_session s id token (str user), verify_call s token ∷ h)
  unfolding rotate_session verify_refresh_token
  turn-verify user id token h a =
      let h' : List Call = verify_call s token ∷ h in
      ap (λ r. ((returned r >>= λ p. done (get p "sub")) >>= fetch_session s id token, h')) a.known
      ∙ ap (λ u. (fetch_session s id token u, h')) a.sub

  pub turn-read :
      (user id token : String) (h : List Call)
      → Reads user id token h
      → turn env (verify_call s token ∷ h) (fetch_session s id token (str user))
        ≡ (renew_session s id (str user), redis_get (session_key id) ∷ verify_call s token ∷ h)
  unfolding fetch_session settle_found settle
  turn-read user id token h a =
      let h' : List Call = redis_get (session_key id) ∷ verify_call s token ∷ h in
      ap (λ r. (returned r >>= settle_found s id token (str user), h')) a.held
      ∙ rw (eq_refl token, eq_refl user) refl

  -- What a reissue makes of the cookie.
  abbrev pub rotated : String → String → Auth Rotated
  rotated user c = done (record { user_id = str user; new_refresh_token = c })

  module _ (user id : String) (h : List Call) (b : Renews user id h) where
    abbrev pub d : Call
    d = redis_del (session_key id)

    abbrev pub g : Call
    g = sign_call s (str user)

    abbrev pub renewed_history : List Call
    renewed_history = set_call b.new_id (str user) b.token ∷ uuid ∷ g ∷ d ∷ h

    pub turn-delete : turn env h (renew_session s id (str user)) ≡ (reissue s (str user), d ∷ h)
    unfolding renew_session
    turn-delete = ap (λ r. (returned r >>= λ _. reissue s (str user), d ∷ h)) b.deleted

    pub turn-sign :
        turn env (d ∷ h) (reissue s (str user))
        ≡ (issue (str user) b.token >>= rotated user, g ∷ d ∷ h)
    unfolding reissue create_refresh_session sign_refresh_token
    turn-sign = ap (λ r. ((returned r >>= issue (str user)) >>= rotated user, g ∷ d ∷ h)) b.signed

    pub turn-draw :
        turn env (g ∷ d ∷ h) (issue (str user) b.token >>= rotated user)
        ≡ (save (str user) b.token b.new_id >>= rotated user, uuid ∷ g ∷ d ∷ h)
    unfolding issue
    turn-draw =
        ap (λ r. ((returned r >>= save (str user) b.token) >>= rotated user, uuid ∷ g ∷ d ∷ h))
          b.drawn

    pub turn-save :
        turn env (uuid ∷ g ∷ d ∷ h) (save (str user) b.token b.new_id >>= rotated user)
        ≡ (rotated user (cookie b.new_id b.token), renewed_history)
    unfolding save
    turn-save =
        ap
          (λ r. (
            (returned r >>= λ _. done (cookie b.new_id b.token)) >>= rotated user,
            renewed_history,
          ))
          b.stored

module _ {env : AuthEnv} {s : Secrets} (w : IsWorking env s) where
  pub Reads-by :
      (user id token : String) (h : List Call) (st : Sessions)
      → Represents env s h st
      → st id ≡ some (record { user = user; token = token })
      → Reads env s user id token h
  Reads-by user id token h st r live =
      let (h', by) = r.signed id _ live in
      let (p, known, sub) = w.verified h' h user token by in
      record {
        payload = p;
        known = known;
        sub = sub;
        held =
            w.get_latest _ (session_key id)
            ∙ ap (λ x. ok x) (r.stored id ∙ ap (Option.map record_of) live);
      }

  pub Renews-by : (user id : String) (h : List Call) → Renews env s user id h
  Renews-by user id h =
      let (t, signed) = w.signs (redis_del (session_key id) ∷ h) user in
      let (i, drawn, plain, unused) =
        w.draws (sign_call s (str user) ∷ redis_del (session_key id) ∷ h) in
      record {
        deleted = w.del_kept h (session_key id);
        token = t;
        signed = signed;
        new_id = i;
        drawn = drawn;
        unused = unused;
        stored = w.set_kept _ _ _;
      }
