-- ===== src/Auth/Refresh/Replay.antt =====
-- A refresh cookie serves once (services/auth-service/src/session/refresh.ts).
use ai_gcm.Base.{
  String, ◌≡◌, refl, inl, inr, none, some, List, ◌∷◌, ◌==◌, Bool-cases, not, ◌||◌, ◌==◌,
}
use ai_gcm.Js.{Value, get}
use ai_gcm.Effect.{Result, ok, err, Result-cases, ok-ne-err, plain, done, throw, ◌>>=◌, returned}
use ai_gcm.Effect.Run.{run, continue, run-returned}
use ai_gcm.Js.{JsonText, json, other}
use ai_gcm.Auth.Calls.{Call, jwt_verify, redis_get, redis_del, Auth, AuthEnv, Secrets}
use ai_gcm.Auth.Jwt.{refresh_secret, refresh_options, verify_refresh_token}
use ai_gcm.Auth.Refresh.{
  session_key, Rotated, reject_session, renew_session, reissue, settle, settle_found, fetch_session,
  is_text, same, settle, settle_found, fetch_session, rotate_session,
}
use ai_gcm.Auth.Refresh.Spending.{Spent-reissue}
use ai_gcm.Auth.Refresh.Store.{
  Failed, WasSet, IsRedis, HasFreshIds, Spent, Spent-cons, MayHold-WasSet,
}

-- What follows a verified token goes on from the user that it names.
pub after_verify :
    {A : Type 0} (env : AuthEnv) (h : List Call) (f : Value → Auth A) (r : Result Value)
    → run env h ((returned r >>= λ p. done (get p "sub")) >>= f)
      ≡ continue env (λ p. f (get p "sub")) (r, h)
after_verify env h f (ok p) = refl
after_verify env h f (err e) = refl

module _ {env : AuthEnv} (redis : IsRedis env) (s : Secrets) (id token : String) where
  -- An id whose session is spent is refused, whatever the token says.
  fetch-fails :
      (h : List Call) (u : Value)
      → Spent env (session_key id) h
      → Failed (run env h (fetch_session s id token u)).0
  unfolding fetch_session settle_found
  fetch-fails h u sp =
      rw
        (run-returned env (redis_get (session_key id) ∷ h) (env h (redis_get (session_key id)))
          (settle_found s id token u))
        (elim (Result-cases (env h (redis_get (session_key id)))) [
          | inr (e, failed) ↦ rw failed (e, refl)
          | inl (none, gone) ↦ rw gone (_, refl)
          | inl (some t, held) ↦ absurd (sp.gone t (redis.get_held h (session_key id) t held))
        ])

  pub rotate-fails :
      (h : List Call)
      → Spent env (session_key id) h
      → Failed (run env h (rotate_session s id token)).0
  unfolding rotate_session verify_refresh_token
  rotate-fails h sp =
      let c : Call = jwt_verify token (refresh_secret s) refresh_options in
      rw (after_verify env (c ∷ h) (fetch_session s id token) (env h c))
        (elim (Result-cases (env h c)) [
          | inr (e, failed) ↦ rw failed (e, refl)
          | inl (p, known) ↦
              rw known (
                fetch-fails (c ∷ h) (get p "sub") (Spent-cons env (session_key id) c h (λ x. x) sp))
        ])

  -- A rotation that succeeds has deleted its session, and every key written after that is new.
  module _ (ids : HasFreshIds env) {r : Rotated} where
    renew-Spent :
        (h : List Call) (u : Value)
        → WasSet (session_key id) h
        → (run env h (renew_session s id u)).0 ≡ ok r
        → Spent env (session_key id) (run env h (renew_session s id u)).1
    unfolding renew_session
    renew-Spent h u was =
        let c : Call = redis_del (session_key id) in
        rw (run-returned env (c ∷ h) (env h c) (λ _. reissue s u)) (elim (Result-cases (env h c)) [
          | inr (e, failed) ↦ rw failed (λ e'. cc)
          | inl (x, gone) ↦ rw gone λ _.
              (Spent-reissue (session_key id) ids s u).at (c ∷ h) (record {
                was_set = was;
                gone = λ t p. elim p.0 [ inl ne ↦ ne refl | inr failed ↦ ok-ne-err gone failed.1 ];
              })
        ])

    reject-fails : {A : Type 0} (h : List Call) → (run env h (reject_session id)).0 ≡ ok r → A
    unfolding reject_session
    reject-fails h =
        let c : Call = redis_del (session_key id) in
        rw
          (run-returned env (c ∷ h) (env h c)
            (λ _. throw (plain "refresh token mismatch — possible replay attack")))
          (elim (Result-cases (env h c)) [
            | inr (e, failed) ↦ rw failed (λ e'. cc)
            | inl (x, gone) ↦ rw gone (λ e'. cc)
          ])

    settle-Spent :
        (h : List Call) (u v : Value)
        → WasSet (session_key id) h
        → (run env h (settle s id token u v)).0 ≡ ok r
        → Spent env (session_key id) (run env h (settle s id token u v)).1
    unfolding settle
    settle-Spent h u v was =
        elim (Bool-cases (not (is_text (get v "token") token) || not (same (get v "userId") u))) [
          | inl differs ↦ rw differs (reject-fails h)
          | inr matches ↦ rw matches (renew-Spent h u was)
        ]

    settle_found-Spent :
        (h : List Call) (u : Value) (t : JsonText)
        → WasSet (session_key id) h
        → (run env h (settle_found s id token u (some t))).0 ≡ ok r
        → Spent env (session_key id) (run env h (settle_found s id token u (some t))).1
    unfolding settle_found
    settle_found-Spent h u (json Value.null) was = λ e. cc
    settle_found-Spent h u (other t) was = elim (Bool-cases (t == "")) [
      | inl empty ↦ rw empty (λ e. cc)
      | inr filled ↦ rw filled (λ e. cc)
    ]
    settle_found-Spent h u (json v) was = settle-Spent h u v was

    fetch-Spent :
        (h : List Call) (u : Value)
        → (run env h (fetch_session s id token u)).0 ≡ ok r
        → Spent env (session_key id) (run env h (fetch_session s id token u)).1
    unfolding fetch_session
    fetch-Spent h u =
        let c : Call = redis_get (session_key id) in
        rw (run-returned env (c ∷ h) (env h c) (settle_found s id token u))
          (elim (Result-cases (env h c)) [
            | inr (e, failed) ↦ rw failed (λ e'. cc)
            | inl (none, missing) ↦ rw missing (unfold settle_found in λ e'. cc)
            | inl (some t, held) ↦ rw held (
                settle_found-Spent (c ∷ h) u t (
                  MayHold-WasSet env (session_key id) t h
                    (redis.get_held h (session_key id) t held)))
          ])

    pub rotate-Spent :
        (h : List Call)
        → (run env h (rotate_session s id token)).0 ≡ ok r
        → Spent env (session_key id) (run env h (rotate_session s id token)).1
    unfolding rotate_session verify_refresh_token
    rotate-Spent h =
        let c : Call = jwt_verify token (refresh_secret s) refresh_options in
        rw (after_verify env (c ∷ h) (fetch_session s id token) (env h c))
          (elim (Result-cases (env h c)) [
            | inr (e, failed) ↦ rw failed (λ e'. cc)
            | inl (p, known) ↦ rw known (fetch-Spent (c ∷ h) (get p "sub"))
          ])
