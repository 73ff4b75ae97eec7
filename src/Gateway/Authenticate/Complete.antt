-- ===== src/Gateway/Authenticate/Complete.antt =====
-- Which tokens the hook admits (services/api-gateway/src/middleware/authenticate.ts).
use Prim.Native.String.{◌++◌}
use text.Mathlib.TextPositions.{starts_with-append}
use ai_gcm.Base.{String, ◌≡◌, ap, Option, some, List}
use ai_gcm.Js.{Value}
use ai_gcm.Js.Text.{slice_from, slice_from-append}
use ai_gcm.Effect.{ok, done}
use ai_gcm.Effect.Run.{run}
use ai_gcm.Effect.Post.{run-catch-await}
use ai_gcm.Http.{error_reply}
use ai_gcm.Gateway.Calls.{Call, jwt_verify, GatewayEnv}
use ai_gcm.Gateway.Authenticate.{denied, admitted, user_of, jwt_secret, verify_bearer, authenticate}

-- The header that carries a token.
abbrev pub bearer : String → String
bearer token = "Bearer " ++ token

verify_bearer-verified :
    (env : GatewayEnv) (h : List Call) (secret : Option String) (token : String) {payload : Value}
    → env h (jwt_verify token (jwt_secret secret)) ≡ ok payload
    → (run env h (verify_bearer secret (bearer token))).0 ≡ ok (admitted (user_of payload))
unfolding verify_bearer
verify_bearer-verified env h secret token known =
    let cut : slice_from 7 (bearer token) ≡ token = slice_from-append "Bearer " token in
    rw cut (
      ap (λ x. x.0)
        (run-catch-await env h (jwt_verify token (jwt_secret secret))
          (λ p. done (admitted (user_of p)))
          (λ e. done (denied (error_reply 401 "Invalid or expired token"))) known))

-- A token that verifies is admitted, for the user whom it names.
pub authenticate-verified :
    (env : GatewayEnv) (h : List Call) (secret : Option String) (token : String) {payload : Value}
    → env h (jwt_verify token (jwt_secret secret)) ≡ ok payload
    → (run env h (authenticate secret (some (bearer token)))).0 ≡ ok (admitted (user_of payload))
unfolding authenticate
authenticate-verified env h secret token known =
    rw (starts_with-append "Bearer " token, authenticate)
      (verify_bearer-verified env h secret token known)
