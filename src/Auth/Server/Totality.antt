-- ===== src/Auth/Server/Totality.antt =====
-- Which replies the routes can give (services/auth-service/src/index.ts).
use ai_gcm.Base.{ℕ, ◌≡◌, ◌⊎◌, refl, inl, inr, none, some, Option, List, [], ◌∷◌, String, arith}
use ai_gcm.Js.{Value}
use ai_gcm.Effect.{Result, ok, err, done}
use ai_gcm.Effect.Post.{Post, Post-await, Post-bind, Post-catch, Anything}
use ai_gcm.Zod.{Zod, Parsed, success, failure}
use ai_gcm.Http.{Response}
use ai_gcm.Auth.Calls.{Call, AuthEnv, Secrets, jwt_sign}
use ai_gcm.Auth.Jwt.{access_jwt, access_secret, sign_access_token}
use ai_gcm.Auth.Refresh.{create_refresh_session, rotate_refresh_session}
use ai_gcm.Auth.Email.{UserRecord, user_of, register_user}
use ai_gcm.Auth.Server.{
  payload_of, open_session, register_failed, register, register_parsed, register_steps,
  refresh_given, refresh_steps, refreshed, refresh_failed, refresh, select_active_user,
}

-- One of the listed statuses.
abbrev pub OneOf : List ℕ → ℕ → Type 0
OneOf [] n = ⊥
OneOf (m ∷ ms) n = (n ≡ m) ⊎ OneOf ms n

-- The handler has answered by one of the statuses, and has thrown nothing.
abbrev pub Answers : List ℕ → Result Response → List Call → Type 0
Answers statuses (ok r) h = OneOf statuses r.status
Answers statuses (err e) h = ⊥

abbrev IfAnswers : List ℕ → Result Response → List Call → Type 0
IfAnswers statuses (ok r) h = OneOf statuses r.status
IfAnswers statuses (err e) h = Unit

module _ (env : AuthEnv) (s : Secrets) where
  open_session-status :
      (h : List Call) (n : ℕ) (u : UserRecord)
      → Post env (IfAnswers (n ∷ [])) h (open_session s n u)
  unfolding open_session sign_access_token
  open_session-status h n u =
      Post-await env (IfAnswers (n ∷ [])) h (jwt_sign (access_jwt (payload_of u)) (access_secret s))
        _
        (λ a _.
          Post-bind env Anything (IfAnswers (n ∷ [])) _ (create_refresh_session s u.id) _ tt
            (λ _ _ _. inl refl) (λ _ _ _. tt))
        (λ _ _. tt)

  parsed-Answers :
      (h : List Call) (p : Parsed)
      → Post env (Answers (201 ∷ 400 ∷ 409 ∷ 500 ∷ [])) h (register_parsed s p)
  unfolding register_parsed register_steps
  parsed-Answers h (failure details) = inr (inl refl)
  parsed-Answers h (success d) =
      Post-catch env (IfAnswers (201 ∷ [])) (Answers (201 ∷ 400 ∷ 409 ∷ 500 ∷ [])) h
        (register_steps s d) (λ e. done (register_failed e))
        (Post-bind env Anything (IfAnswers (201 ∷ [])) h (register_user d) (open_session s 201) tt
          (λ u h' _. open_session-status h' 201 u) (λ _ _ _. tt))
        (λ r h'. ground arith) (λ e h' _. ground arith)

  refreshed-status :
      (h : List Call) (cookie : String) (rows : List Value)
      → Post env (IfAnswers (200 ∷ 401 ∷ [])) h (refreshed s cookie rows)
  unfolding refreshed sign_access_token
  refreshed-status h cookie [] = inr (inl refl)
  refreshed-status h cookie (row ∷ rows) =
      Post-await env (IfAnswers (200 ∷ 401 ∷ [])) h
        (jwt_sign (access_jwt (payload_of (user_of row))) (access_secret s)) _ (λ _ _. inl refl)
        (λ _ _. tt)

  given-Answers :
      (h : List Call) (c : Option String)
      → Post env (Answers (200 ∷ 400 ∷ 401 ∷ [])) h (refresh_given s c)
  unfolding refresh_given refresh_steps
  given-Answers h none = inr (inl refl)
  given-Answers h (some cookie) =
      Post-catch env (IfAnswers (200 ∷ 401 ∷ [])) (Answers (200 ∷ 400 ∷ 401 ∷ [])) h
        (refresh_steps s cookie) (λ e. done (refresh_failed e))
        (Post-bind env Anything (IfAnswers (200 ∷ 401 ∷ [])) h (rotate_refresh_session s cookie) _
          tt
          (λ r h' _.
            Post-await env (IfAnswers (200 ∷ 401 ∷ [])) h' (select_active_user r.user_id) _
              (λ rows _. refreshed-status _ r.new_refresh_token rows) (λ _ _. tt))
          (λ _ _ _. tt))
        (λ r h'. ground arith) (λ e h' _. inr (inr (inl refl)))

-- Whatever the request and whatever the services answer, registration replies by 201, 400, 409
-- or 500, and throws nothing to the framework.
pub register-Answers :
    (env : AuthEnv) (zod : Zod) (s : Secrets) (h : List Call) (body : Value)
    → Post env (Answers (201 ∷ 400 ∷ 409 ∷ 500 ∷ [])) h (register zod s body)
unfolding register
register-Answers env zod s h body = parsed-Answers env s h _

-- Whatever the request and whatever the services answer, a refresh replies by 200, 400 or 401,
-- and throws nothing to the framework.
pub refresh-Answers :
    (env : AuthEnv) (s : Secrets) (h : List Call) (body : Value)
    → Post env (Answers (200 ∷ 400 ∷ 401 ∷ [])) h (refresh s body)
unfolding refresh
refresh-Answers env s h body = given-Answers env s h _
