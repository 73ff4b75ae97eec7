-- ===== src/Auth/Server/Issued.antt =====
-- Whom the access token of a login names (services/auth-service/src/index.ts).
use ai_gcm.Base.{ℕ, String, ◌≡◌, refl, ◌⊎◌, inl, inr, none, some, List, ◌∷◌, Option}
use ai_gcm.Js.{Value, get}
use ai_gcm.Effect.{Result, ok, err}
use ai_gcm.Effect.Run.{run}
use ai_gcm.Effect.Post.{Post, Post-await, Post-bind}
use ai_gcm.Zod.{Zod, Parsed, success, failure}
use ai_gcm.Http.{Response}
use ai_gcm.Auth.Calls.{Call, jwt_sign, AuthEnv, Secrets}
use ai_gcm.Auth.Jwt.{access_jwt, access_secret, sign_access_token}
use ai_gcm.Auth.Refresh.{create_refresh_session}
use ai_gcm.Auth.Email.{login_schema, UserRecord, validate_credentials}
use ai_gcm.Auth.Email.Login.{Login, Checked, validate-Login}
use ai_gcm.Auth.Server.{
  payload_of, session_body, open_session, login_as, login_steps, login_parsed, login,
}

module _ (env : AuthEnv) (s : Secrets) where
  -- The body carries an access token that was signed for the user, and a new refresh cookie.
  pub record Carries (u : UserRecord) (body : Value) : Type 0 where
    pub history : List Call
    pub token : String
    pub signed : env history (jwt_sign (access_jwt (payload_of u)) (access_secret s)) ≡ ok token
    pub later : List Call
    pub cookie : String
    pub opened : (run env later (create_refresh_session s u.id)).0 ≡ ok cookie
    pub sent : body ≡ session_body u token cookie

  module _ (h : List Call) (p : Parsed) where
    -- The user of a reply 200 has passed the check of the password.
    pub record Granted (body : Value) : Type 0 where
      pub request : Value
      pub parsed : p ≡ success request
      pub user : UserRecord
      pub checked : Checked env h (get request "email") (get request "password") user
      pub carried : Carries user body

    abbrev pub LoggedIn : Result Response → List Call → Type 0
    LoggedIn (ok r) h' = ((r.status ≡ 400) ⊎ (r.status ≡ 401)) ⊎ Granted r.body
    LoggedIn (err e) h' = Unit

  abbrev Opened : UserRecord → Result Response → List Call → Type 0
  Opened u (ok r) h' = Carries u r.body
  Opened u (err e) h' = Unit

  Returned : List Call → UserRecord → Result String → List Call → Type 0
  Returned h u (ok c) h' = (run env h (create_refresh_session s u.id)).0 ≡ ok c
  Returned h u (err e) h' = Unit

  Returned-create :
      (h : List Call) (u : UserRecord) (r : Result String) (h' : List Call)
      → (run env h (create_refresh_session s u.id)).0 ≡ r
      → Returned h u r h'
  unfolding Returned
  Returned-create h u (ok c) h' e = e
  Returned-create h u (err x) h' e = tt

  open_session-Carries :
      (h : List Call) (n : ℕ) (u : UserRecord) → Post env (Opened u) h (open_session s n u)
  unfolding open_session sign_access_token Returned
  open_session-Carries h n u =
      let c : Call = jwt_sign (access_jwt (payload_of u)) (access_secret s) in
      Post-await env (Opened u) h c _
        (λ token signed.
          Post-bind env (Returned (c ∷ h) u) (Opened u) (c ∷ h) (create_refresh_session s u.id) _
            (Returned-create (c ∷ h) u _ _ refl)
            (λ cookie h' opened. record {
              history = h;
              token = token;
              signed = signed;
              later = c ∷ h;
              cookie = cookie;
              opened = opened;
              sent = refl;
            })
            (λ _ _ _. tt))
        (λ _ _. tt)

  Opened-LoggedIn :
      (h : List Call) (d : Value) {u : UserRecord}
      → Checked env h (get d "email") (get d "password") u
      → (r : Result Response) (h' : List Call) → Opened u r h'
      → LoggedIn h (success d) r h'
  Opened-LoggedIn h d {u} checked (ok r) h' carried =
      inr (record { request = d; parsed = refl; user = u; checked = checked; carried = carried })
  Opened-LoggedIn h d checked (err e) h' _ = tt

  login_as-LoggedIn :
      (h h' : List Call) (d : Value) (o : Option UserRecord)
      → Login env h (get d "email") (get d "password") (ok o) h'
      → Post env (LoggedIn h (success d)) h' (login_as s o)
  unfolding login_as
  login_as-LoggedIn h h' d none _ = inl (inr refl)
  login_as-LoggedIn h h' d (some u) checked =
      Opened-LoggedIn h d checked _ _ (open_session-Carries h' 200 u)

  parsed-LoggedIn : (h : List Call) (p : Parsed) → Post env (LoggedIn h p) h (login_parsed s p)
  unfolding login_parsed login_steps
  parsed-LoggedIn h (failure details) = inl (inl refl)
  parsed-LoggedIn h (success d) =
      Post-bind env (Login env h (get d "email") (get d "password")) (LoggedIn h (success d)) h
        (validate_credentials (get d "email") (get d "password")) (login_as s)
        (validate-Login env h (get d "email") (get d "password"))
        (λ o h' p. login_as-LoggedIn h h' d o p) (λ _ _ _. tt)

pub login-LoggedIn :
    (env : AuthEnv) (zod : Zod) (s : Secrets) (h : List Call) (body : Value)
    → Post env (LoggedIn env s h (zod login_schema body)) h (login zod s body)
unfolding login
login-LoggedIn env zod s h body = parsed-LoggedIn env s h (zod login_schema body)
