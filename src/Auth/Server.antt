-- ===== src/Auth/Server.antt =====
-- The routes (services/auth-service/src/index.ts). The rate limiter and CORS stand outside.
pub mod Totality
pub mod Issued
use ai_gcm.Base.{
  ℕ, String, Bool, true, false, not, ◌||◌, Option, none, some, List, [], ◌∷◌, ◌==◌, if◌then◌else◌,
}
use ai_gcm.Js.{Value, get, str, nat, object, or_else}
use ai_gcm.Effect.{Error, done, await, catch, ◌>>=◌, ◌>>◌}
use ai_gcm.Zod.{Zod, Parsed, success, failure}
use ai_gcm.Http.{Response, reply, error_reply}
use ai_gcm.Auth.Calls.{Call, query, Auth, Secrets}
use ai_gcm.Auth.Jwt.{TokenPayload, sign_access_token}
use ai_gcm.Auth.Refresh.{
  Rotated, create_refresh_session, rotate_refresh_session, revoke_refresh_session,
}
use ai_gcm.Auth.Email.{
  register_schema, login_schema, UserRecord, user_of, register_user, validate_credentials,
}

abbrev pub expires_in : ℕ
expires_in = 604800

abbrev pub payload_of : UserRecord → TokenPayload
payload_of u = record {
  sub = u.id;
  org_id = u.org_id;
  team_id = or_else u.team_id (str "");
  role = u.role;
  email = u.email;
}

abbrev pub session_body : UserRecord → (access_token refresh_token : String) → Value
session_body u access_token refresh_token = object (
    ("access_token", str access_token)
    ∷ ("refresh_token", str refresh_token)
    ∷ ("token_type", str "Bearer")
    ∷ ("expires_in", nat expires_in)
    ∷ (
      "user",
      object (
          ("id", u.id)
          ∷ ("email", u.email)
          ∷ ("name", u.name)
          ∷ ("role", u.role)
          ∷ ("org_id", u.org_id)
          ∷ []),
    )
    ∷ [])

abbrev pub validation_failed : Value → Response
validation_failed details =
    reply 400 (object (("error", str "Validation failed") ∷ ("details", details) ∷ []))

-- The tokens of a new session, and the reply that carries them.
pub open_session : Secrets → (status : ℕ) → UserRecord → Auth Response
open_session s status u = do
  access_token ← sign_access_token s (payload_of u)
  refresh_token ← create_refresh_session s u.id
  done (reply status (session_body u access_token refresh_token))

-- The `catch` block of registration: 23505 is Postgres' unique violation.
abbrev pub is_unique_violation : Error → Bool
is_unique_violation e = elim e.code [ none ↦ false | some code ↦ code == "23505" ]

abbrev pub register_failed : Error → Response
register_failed e =
    if is_unique_violation e
    then error_reply 409 "An account with that email or org slug already exists."
    else error_reply 500 "Internal server error"

pub register_steps : Secrets → Value → Auth Response
unfolding open_session
register_steps s d = do user ← register_user d; open_session s 201 user

pub register_parsed : Secrets → Parsed → Auth Response
unfolding register_steps
register_parsed s (failure details) = done (validation_failed details)
register_parsed s (success d) = catch (register_steps s d) (λ e. done (register_failed e))

-- POST /auth/register.
unfoldable pub register : Zod → Secrets → Value → Auth Response
unfolding register_parsed
register zod s body = register_parsed s (zod register_schema body)

pub login_as : Secrets → Option UserRecord → Auth Response
unfolding open_session
login_as s none = done (error_reply 401 "Invalid email or password.")
login_as s (some u) = open_session s 200 u

pub login_steps : Secrets → Value → Auth Response
unfolding login_as
login_steps s d = do user ← validate_credentials (get d "email") (get d "password"); login_as s user

pub login_parsed : Secrets → Parsed → Auth Response
unfolding login_steps
login_parsed s (failure details) = done (validation_failed details)
login_parsed s (success d) = login_steps s d

-- POST /auth/login.
unfoldable pub login : Zod → Secrets → Value → Auth Response
unfolding login_parsed
login zod s body = login_parsed s (zod login_schema body)

abbrev pub select_active_user : Value → Call
select_active_user user_id =
    query
      "SELECT id, org_id, team_id, email, name, role FROM users WHERE id = $1 AND is_active = TRUE"
      (user_id ∷ [])

-- The reply to a rotated session, from the rows found for its user.
pub refreshed : Secrets → String → List Value → Auth Response
refreshed s new_refresh_token [] = done (error_reply 401 "User not found or deactivated.")
refreshed s new_refresh_token (row ∷ rows) = do
  access_token ← sign_access_token s (payload_of (user_of row))
  done (
      reply 200 (
        object (
          ("access_token", str access_token)
          ∷ ("refresh_token", str new_refresh_token)
          ∷ ("token_type", str "Bearer")
          ∷ ("expires_in", nat expires_in)
          ∷ [])))

-- `err.message || 'Invalid refresh token'`.
abbrev pub refresh_failed : Error → Response
refresh_failed e = error_reply 401 (if e.message == "" then "Invalid refresh token" else e.message)

pub refresh_steps : Secrets → String → Auth Response
unfolding refreshed
refresh_steps s cookie = do
  rotated ← rotate_refresh_session s cookie
  rows ← await (select_active_user rotated.user_id)
  refreshed s rotated.new_refresh_token rows

-- `!refresh_token || typeof refresh_token !== 'string'`, otherwise the text.
abbrev pub given_cookie : Value → Option String
given_cookie (str s) = if s == "" then none else some s
given_cookie _ = none

pub refresh_given : Secrets → Option String → Auth Response
unfolding refresh_steps
refresh_given s none = done (error_reply 400 "refresh_token is required")
refresh_given s (some cookie) = catch (refresh_steps s cookie) (λ e. done (refresh_failed e))

-- POST /auth/refresh.
unfoldable pub refresh : Secrets → Value → Auth Response
unfolding refresh_given
refresh s body = refresh_given s (given_cookie (get body "refresh_token"))

pub logout_given : Option String → Auth Response
logout_given none = done (reply 204 Value.undefined)
logout_given (some cookie) = revoke_refresh_session cookie >> done (reply 204 Value.undefined)

-- POST /auth/logout.
unfoldable pub logout : Value → Auth Response
unfolding logout_given
logout body = logout_given (given_cookie (get body "refresh_token"))

-- GET /health.
abbrev pub health : Response
health = reply 200 (
    object (("status", str "ok") ∷ ("service", str "auth-service") ∷ ("version", str "1.0.0") ∷ []))
