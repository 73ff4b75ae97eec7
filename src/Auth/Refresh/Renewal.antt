-- ===== src/Auth/Refresh/Renewal.antt =====
-- A session that was created can be renewed (services/auth-service/src/session/refresh.ts).
use native.Mathlib.Numerals.{add-one}
use ai_gcm.Base.{String, ◌≡◌, refl, ap, some, List, ◌∷◌, eq_refl}
use ai_gcm.Js.{Value, str, get}
use ai_gcm.Js.Text.{Lacks, index_of-joined, slice_to-joined, slice_from-joined, size}
use ai_gcm.Effect.{ok, done}
use ai_gcm.Effect.Run.{run, run-bind, run-returned}
use ai_gcm.Js.{JsonText, json}
use ai_gcm.Auth.Calls.{
  Call, jwt_sign, jwt_verify, uuid, redis_set, redis_get, redis_del, AuthEnv, Secrets,
}
use ai_gcm.Auth.Jwt.{refresh_jwt, refresh_secret, refresh_options}
use ai_gcm.Auth.Refresh.{
  session_key, stored_session, ttl_seconds, cookie, create_refresh_session, issue, save, Rotated,
  rotate_session, rotate_refresh_session, fetch_session, settle_found, settle, renew_session,
  reissue,
}
use ai_gcm.Auth.Refresh.Sessions.{rotate_refresh-dot}
use ai_gcm.Auth.Refresh.Replay.{after_verify}

-- The services work and nothing expires: Redis, jose and the id generator answer as documented.
pub record IsUp (env : AuthEnv) (s : Secrets) : Type 0 where
  -- The next GET of a key that was just written, whatever token is verified in between.
  pub kept :
      (h : List Call) (k token : String) (t : JsonText)
      → env
          (jwt_verify token (refresh_secret s) refresh_options ∷ redis_set k t ttl_seconds ∷ h)
          (redis_get k)
        ≡ ok (some t)
  pub verified :
      (h h' : List Call) (user_id token : String)
      → env h (jwt_sign (refresh_jwt (str user_id)) (refresh_secret s)) ≡ ok token
      → (p : Value) × (env h' (jwt_verify token (refresh_secret s) refresh_options) ≡ ok p)
        × (get p "sub" ≡ str user_id)
  pub signs :
      (h : List Call) (user_id : String)
      → (token : String) × (env h (jwt_sign (refresh_jwt (str user_id)) (refresh_secret s))
          ≡ ok token)
  pub issues : (h : List Call) → (id : String) × (env h uuid ≡ ok id) × Lacks b'.' id
  pub writes :
      (h : List Call) (k : String) (t : JsonText) → env h (redis_set k t ttl_seconds) ≡ ok tt
  pub deletes : (h : List Call) (k : String) → env h (redis_del k) ≡ ok tt

abbrev pub sign_call : Secrets → Value → Call
sign_call s u = jwt_sign (refresh_jwt u) (refresh_secret s)

abbrev pub verify_call : Secrets → String → Call
verify_call s token = jwt_verify token (refresh_secret s) refresh_options

abbrev pub set_call : String → Value → String → Call
set_call id u token = redis_set (session_key id) (json (stored_session u token)) ttl_seconds

module _ (env : AuthEnv) (s : Secrets) where
  -- The calls of `createRefreshSession` when each of them succeeds.
  pub create-eq :
      (h : List Call) (u : Value) {token id : String}
      → env h (sign_call s u) ≡ ok token
      → env (sign_call s u ∷ h) uuid ≡ ok id
      → env (uuid ∷ sign_call s u ∷ h) (set_call id u token) ≡ ok tt
      → run env h (create_refresh_session s u)
        ≡ (ok (cookie id token), set_call id u token ∷ uuid ∷ sign_call s u ∷ h)
  unfolding create_refresh_session issue save
  create-eq h u {token} {id} signed drawn stored =
      let h₁ : List Call = sign_call s u ∷ h in
      let h₂ : List Call = uuid ∷ h₁ in
      let c : Call = set_call id u token in
      rw (run-returned env h₁ (env h (sign_call s u)) (issue u), signed)
        (rw (run-returned env h₂ (env h₁ uuid) (save u token), drawn)
          (rw (run-returned env (c ∷ h₂) (env h₂ c) (λ _. done (cookie id token)), stored) refl))

  -- A rotation whose token is the user's, and whose record is the session's, reissues.
  pub rotate-eq :
      (h : List Call) (u id token : String) {p : Value}
      → env h (verify_call s token) ≡ ok p
      → get p "sub" ≡ str u
      → env (verify_call s token ∷ h) (redis_get (session_key id))
        ≡ ok (some (json (stored_session (str u) token)))
      → env (redis_get (session_key id) ∷ verify_call s token ∷ h) (redis_del (session_key id))
        ≡ ok tt
      → run env h (rotate_session s id token)
        ≡ run env
            (redis_del (session_key id) ∷ redis_get (session_key id) ∷ verify_call s token ∷ h)
            (reissue s (str u))
  unfolding rotate_session fetch_session settle_found settle renew_session
  rotate-eq h u id token known sub held gone =
      let h₁ : List Call = verify_call s token ∷ h in
      let g : Call = redis_get (session_key id) in
      let d : Call = redis_del (session_key id) in
      rw (after_verify env h₁ (fetch_session s id token) (env h (verify_call s token)), known, sub)
        (rw (run-returned env (g ∷ h₁) (env h₁ g) (settle_found s id token (str u)), held)
          (rw (eq_refl token, eq_refl u)
            (rw (run-returned env (d ∷ g ∷ h₁) (env (g ∷ h₁) d) (λ _. reissue s (str u)), gone)
              refl)))

  pub reissue-eq :
      (h : List Call) (u : Value) (c : String) (h' : List Call)
      → run env h (create_refresh_session s u) ≡ (ok c, h')
      → run env h (reissue s u) ≡ (ok (record { user_id = u; new_refresh_token = c }), h')
  unfolding reissue
  reissue-eq h u c h' created = rw (run-bind env h (create_refresh_session s u), created) refl

  pub created_dot :
      (id token : String)
      → Lacks b'.' id
      → rotate_refresh_session s (cookie id token) ≡ rotate_session s id token
  created_dot id token plain_id =
      rw (rotate_refresh-dot s (cookie id token) (size id) (index_of-joined token id plain_id))
        (simp (add-one, slice_to-joined, slice_from-joined))

-- A login's cookie is accepted by the next refresh, which names the user of the login, provided
-- that Redis, jose and the id generator answer without errors and nothing has expired.
pub created_renews :
    (env : AuthEnv) (s : Secrets) (h : List Call) (u : String)
    → IsUp env s
    → (c : String) × (r : Rotated) × ((run env h (create_refresh_session s (str u))).0 ≡ ok c)
      × ((run env (run env h (create_refresh_session s (str u))).1 (rotate_refresh_session s c)).0
          ≡ ok r)
      × (r.user_id ≡ str u)
created_renews env s h u up =
    let (token, signed) = up.signs h u in
    let h₁ : List Call = sign_call s (str u) ∷ h in
    let (id, drawn, plain_id) = up.issues h₁ in
    let h₂ : List Call = set_call id (str u) token ∷ uuid ∷ h₁ in
    let (p, known, sub) = up.verified h h₂ u token signed in
    let g : Call = redis_get (session_key id) in
    let h₃ : List Call = redis_del (session_key id) ∷ g ∷ verify_call s token ∷ h₂ in
    let (token', signed') = up.signs h₃ u in
    let (id', drawn', plain_id') = up.issues (sign_call s (str u) ∷ h₃) in
    let made = create-eq env s h (str u) signed drawn (up.writes _ _ _) in
    let renewed =
      rotate-eq env s h₂ u id token known sub (up.kept (uuid ∷ h₁) (session_key id) token _)
        (up.deletes _ _) in
    let made' = create-eq env s h₃ (str u) signed' drawn' (up.writes _ _ _) in
    (
      cookie id token,
      record { user_id = str u; new_refresh_token = cookie id' token' },
      ap (λ x. x.0) made,
      rw (made, created_dot env s id token plain_id, renewed)
          (ap (λ x. x.0) (reissue-eq env s h₃ (str u) (cookie id' token') _ made')),
      refl,
    )
