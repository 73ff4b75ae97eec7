-- ===== src/Auth/Refresh.antt =====
-- Refresh sessions (services/auth-service/src/session/refresh.ts). A cookie is
-- "sessionId.token"; Redis maps "refresh:" + sessionId to the JSON text of { userId, token }.
pub mod Store
pub mod Spending
pub mod Replay
pub mod Sessions
pub mod Renewal
pub mod Refine
use Prim.Native.String.{◌++◌}
use ai_gcm.Base.{
  ℕ, ◌+◌, ◌*◌, String, Bool, true, false, not, ◌&&◌, ◌||◌, nat_eq, Option, none, some, [], ◌∷◌,
  ◌==◌, if◌then◌else◌,
}
use ai_gcm.Js.{Value, Number, whole, decimal, bool, num, object, str, get}
use ai_gcm.Js.Text.{index_of, slice_to, slice_from}
use ai_gcm.Effect.{Prog, done, throw, plain, await, ◌>>=◌, ◌>>◌}
use ai_gcm.Js.{JsonText, json, other}
use ai_gcm.Auth.Calls.{uuid, redis_set, redis_get, redis_del, Auth, Secrets}
use ai_gcm.Auth.Jwt.{sign_refresh_token, verify_refresh_token}

abbrev pub refresh_prefix : String
refresh_prefix = "refresh:"

abbrev pub ttl_seconds : ℕ
ttl_seconds = 60 * 60 * 24 * 30

abbrev pub session_key : String → String
session_key session_id = refresh_prefix ++ session_id

abbrev pub stored_session : Value → String → Value
stored_session user_id token = object (("userId", user_id) ∷ ("token", str token) ∷ [])

abbrev pub cookie : String → String → String
cookie session_id token = session_id ++ ("." ++ token)

-- The end of `createRefreshSession`: the token is stored under the new id.
pub save : Value → (token session_id : String) → Auth String
save user_id token session_id = do
  await (redis_set (session_key session_id) (json (stored_session user_id token)) ttl_seconds)
  done (cookie session_id token)

pub issue : Value → String → Auth String
unfolding save
issue user_id token = do session_id ← await uuid; save user_id token session_id

unfoldable pub create_refresh_session : Secrets → Value → Auth String
unfolding sign_refresh_token issue
create_refresh_session s user_id = do token ← sign_refresh_token s user_id; issue user_id token

pub record Rotated : Type 0 where
  pub user_id : Value
  pub new_refresh_token : String

-- `JSON.parse`, and the property reads of what it returns, which throw on null.
abbrev pub parse_session : JsonText → Auth Value
parse_session (json Value.null) = throw (plain "Cannot read properties of null")
parse_session (json v) = done v
parse_session (other s) = throw (plain "Unexpected token in JSON")

-- `a === b`, where `b` is a text.
abbrev pub is_text : Value → String → Bool
is_text (str s) t = s == t
is_text _ t = false

abbrev pub same_number : Number → Number → Bool
same_number (whole n) (whole m) = nat_eq n m
same_number (decimal true d s) (decimal true d' s') = nat_eq d d' && nat_eq s s'
same_number (decimal false d s) (decimal false d' s') = nat_eq d d' && nat_eq s s'
same_number _ _ = false

-- `a === b` for two values; objects are never the same object here.
abbrev pub same : Value → Value → Bool
same (str s) (str t) = s == t
same (bool true) (bool b) = b
same (bool false) (bool b) = not b
same (num a) (num b) = same_number a b
same Value.undefined Value.undefined = true
same Value.null Value.null = true
same _ _ = false

-- `if (!record) throw …`: an empty text is falsy too.
abbrev pub present : Option JsonText → Auth JsonText
present none = throw (plain "refresh session not found or expired")
present (some (other s)) =
    if s == "" then throw (plain "refresh session not found or expired") else done (other s)
present (some (json v)) = done (json v)

-- The branch of a record that does not match: the session is deleted before the throw.
pub reject_session : String → Auth Rotated
reject_session session_id = do
  await (redis_del (session_key session_id))
  throw (plain "refresh token mismatch — possible replay attack")

pub reissue : Secrets → Value → Auth Rotated
unfolding create_refresh_session
reissue s user_id = do
  renewed ← create_refresh_session s user_id
  done (record { user_id = user_id; new_refresh_token = renewed })

pub renew_session : Secrets → String → Value → Auth Rotated
unfolding reissue
renew_session s session_id user_id = do
  await (redis_del (session_key session_id))
  reissue s user_id

-- The test `stored.token !== token || stored.userId !== userId`, and its two branches.
pub settle : Secrets → (session_id token : String) → (user_id stored : Value) → Auth Rotated
unfolding reject_session renew_session
settle s session_id token user_id stored =
    if not (is_text (get stored "token") token) || not (same (get stored "userId") user_id)
    then reject_session session_id
    else renew_session s session_id user_id

-- The record of the session, once the token is known to be the user's.
pub settle_found : Secrets → (session_id token : String) → Value → Option JsonText → Auth Rotated
unfolding settle
settle_found s session_id token user_id found = do
  text ← present found
  stored ← parse_session text
  settle s session_id token user_id stored

pub fetch_session : Secrets → (session_id token : String) → Value → Auth Rotated
unfolding settle_found
fetch_session s session_id token user_id = do
  found ← await (redis_get (session_key session_id))
  settle_found s session_id token user_id found

unfoldable pub rotate_session : Secrets → (session_id token : String) → Auth Rotated
unfolding verify_refresh_token fetch_session
rotate_session s session_id token = do
  user_id ← verify_refresh_token s token
  fetch_session s session_id token user_id

unfoldable pub rotate_refresh_session : Secrets → String → Auth Rotated
unfolding rotate_session index_of slice_to slice_from
rotate_refresh_session s raw_cookie = elim (index_of b'.' raw_cookie) [
  | none ↦ throw (plain "malformed refresh token")
  | some dot_idx ↦
      rotate_session s (slice_to dot_idx raw_cookie) (slice_from (dot_idx + 1) raw_cookie)
]

unfoldable pub revoke_refresh_session : String → Auth (Unit {0})
unfolding index_of slice_to
revoke_refresh_session raw_cookie = elim (index_of b'.' raw_cookie) [
  | none ↦ done tt
  | some dot_idx ↦ await (redis_del (session_key (slice_to dot_idx raw_cookie)))
]
