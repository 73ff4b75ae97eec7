-- ===== src/Auth/Refresh/Spending.antt =====
-- What the operations on sessions leave of a spent session (services/auth-service/src/session/refresh.ts).
use ai_gcm.Base.{String, ◌≡◌, inl, inr, Option, none, some, ◌∷◌, ◌==◌}
use ai_gcm.Js.{Value}
use ai_gcm.Effect.{Result-cases, await, done, ◌>>=◌}
use ai_gcm.Effect.Run.{run-returned}
use ai_gcm.Effect.Keeps.{Keeps, Keeps-bind, Keeps-await, Keeps-done, Keeps-throw, Keeps-if}
use ai_gcm.Js.{JsonText, json, other}
use ai_gcm.Auth.Calls.{
  Call, Answer, jwt_sign, jwt_verify, uuid, redis_set, redis_get, redis_del, Auth, AuthEnv, Secrets,
}
use ai_gcm.Auth.Jwt.{refresh_jwt, refresh_secret, refresh_options, verify_refresh_token}
use ai_gcm.Auth.Refresh.{
  session_key, create_refresh_session, present, parse_session, issue, save, cookie, reject_session,
  renew_session, reissue, settle, settle_found, fetch_session, rotate_session, stored_session,
  ttl_seconds,
}
use ai_gcm.Auth.Refresh.Store.{Sets, HasFreshIds, Spent, Spent-cons}

module _ {env : AuthEnv} (k : String) where
  pub Spent-step :
      {A : Type 0} (c : Call) (f : Answer c → Auth A)
      → (Sets k c → ⊥)
      → ((a : Answer c) → Keeps env (Spent env k) (f a))
      → Keeps env (Spent env k) (await c >>= f)
  Spent-step c f apart rest =
      Keeps-bind (await c) f (Keeps-await c (λ h sp. Spent-cons env k c h apart sp)) rest

  Spent-save :
      (u : Value) (token id : String)
      → (session_key id ≡ k → ⊥)
      → Keeps env (Spent env k) (save u token id)
  unfolding save
  Spent-save u token id apart =
      Spent-step (redis_set (session_key id) (json (stored_session u token)) ttl_seconds)
        (λ _. done (cookie id token)) apart (λ _. Keeps-done _)

  -- The new id is not the spent one, which was written before.
  Spent-issue :
      HasFreshIds env → (u : Value) (token : String) → Keeps env (Spent env k) (issue u token)
  unfolding issue
  Spent-issue ids u token = record {
    at = λ h sp.
        let after : Spent env k (uuid ∷ h) = Spent-cons env k uuid h (λ x. x) sp in
        rw (run-returned env (uuid ∷ h) (env h uuid) (save u token))
          (elim (Result-cases (env h uuid)) [
            | inr (e, failed) ↦ rw failed after
            | inl (id, made) ↦ rw made (
                (Spent-save u token id (λ e. ids.fresh h id made (rw e sp.was_set))).at (uuid ∷ h)
                  after)
          ]);
  }

  module _ (ids : HasFreshIds env) (s : Secrets) where
    pub Spent-create : (u : Value) → Keeps env (Spent env k) (create_refresh_session s u)
    unfolding create_refresh_session
    Spent-create u =
        Spent-step (jwt_sign (refresh_jwt u) (refresh_secret s)) (issue u) (λ x. x)
          (Spent-issue ids u)

    Spent-reject : (id : String) → Keeps env (Spent env k) (reject_session id)
    unfolding reject_session
    Spent-reject id = Spent-step (redis_del (session_key id)) _ (λ x. x) (λ _. Keeps-throw _)

    pub Spent-reissue : (u : Value) → Keeps env (Spent env k) (reissue s u)
    unfolding reissue
    Spent-reissue u = Keeps-bind (create_refresh_session s u) _ (Spent-create u) (λ _. Keeps-done _)

    Spent-renew : (id : String) (u : Value) → Keeps env (Spent env k) (renew_session s id u)
    unfolding renew_session
    Spent-renew id u = Spent-step (redis_del (session_key id)) _ (λ x. x) (λ _. Spent-reissue u)

    Spent-settle :
        (id token : String) (u v : Value) → Keeps env (Spent env k) (settle s id token u v)
    unfolding settle
    Spent-settle id token u v = Keeps-if _ _ _ (Spent-reject id) (Spent-renew id u)

    Spent-parse : (t : JsonText) → Keeps env (Spent env k) (parse_session t)
    Spent-parse (json Value.null) = Keeps-throw _
    Spent-parse (json _) = Keeps-done _
    Spent-parse (other t) = Keeps-throw _

    Spent-present : (o : Option JsonText) → Keeps env (Spent env k) (present o)
    Spent-present none = Keeps-throw _
    Spent-present (some (other t)) = Keeps-if (t == "") _ _ (Keeps-throw _) (Keeps-done _)
    Spent-present (some (json v)) = Keeps-done _

    Spent-settle_found :
        (id token : String) (u : Value) (o : Option JsonText)
        → Keeps env (Spent env k) (settle_found s id token u o)
    unfolding settle_found
    Spent-settle_found id token u o =
        Keeps-bind (present o) _ (Spent-present o)
          λ t. Keeps-bind (parse_session t) _ (Spent-parse t) (Spent-settle id token u)

    Spent-fetch :
        (id token : String) (u : Value) → Keeps env (Spent env k) (fetch_session s id token u)
    unfolding fetch_session
    Spent-fetch id token u =
        Spent-step (redis_get (session_key id)) _ (λ x. x) (Spent-settle_found id token u)

    Spent-verify : (token : String) → Keeps env (Spent env k) (verify_refresh_token s token)
    unfolding verify_refresh_token
    Spent-verify token =
        Spent-step (jwt_verify token (refresh_secret s) refresh_options) _ (λ x. x)
          (λ _. Keeps-done _)

    pub Spent-rotate : (id token : String) → Keeps env (Spent env k) (rotate_session s id token)
    unfolding rotate_session
    Spent-rotate id token =
        Keeps-bind (verify_refresh_token s token) _ (Spent-verify token) (Spent-fetch id token)
