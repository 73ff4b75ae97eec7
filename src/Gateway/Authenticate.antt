-- ===== src/Gateway/Authenticate.antt =====
-- The authentication hook (services/api-gateway/src/middleware/authenticate.ts).
pub mod Sound
pub mod Complete
use Prim.Native.Nat.{ℕ, zero, suc}
use Prim.Native.String.{◌++◌}
use text.Mathlib.Text.{starts_with}
use ai_gcm.Base.{String, Option, none, some, Bool, true, false, ◌==◌, if◌then◌else◌}
use ai_gcm.Js.{Value, get}
use ai_gcm.Js.Text.{slice_from}
use ai_gcm.Effect.{Error, Prog, done, throw, await, catch, ◌>>=◌}
use ai_gcm.Http.{Response, error_reply}
use ai_gcm.Gateway.Calls.{jwt_verify, Gateway, User}

-- `process.env.JWT_SECRET || 'dev-secret'`.
abbrev pub jwt_secret : Option String → String
jwt_secret none = "dev-secret"
jwt_secret (some s) = if s == "" then "dev-secret" else s

-- The hook replies, or sets `req.user`.
pub data Gate : Type 0 where
  denied : Response → Gate
  admitted : User → Gate

abbrev pub user_of : Value → User
user_of payload = record {
  id = get payload "sub";
  org_id = get payload "org_id";
  team_id = get payload "team_id";
  role = get payload "role";
  user_id = get payload "sub";
}

pub verify_bearer : Option String → String → Gateway Gate
verify_bearer secret header =
    catch
      (do
        payload ← await (jwt_verify (slice_from 7 header) (jwt_secret secret))
        done (admitted (user_of payload)))
      (λ e. done (denied (error_reply 401 "Invalid or expired token")))

abbrev missing_header : Gate
missing_header = denied (error_reply 401 "Missing or invalid Authorization header")

unfoldable pub authenticate : (secret header : Option String) → Gateway Gate
unfolding verify_bearer
authenticate secret none = done missing_header
authenticate secret (some header) =
    if starts_with header "Bearer " then verify_bearer secret header else done missing_header
