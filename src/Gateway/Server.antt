-- ===== src/Gateway/Server.antt =====
-- The hook before every handler (services/api-gateway/src/index.ts).
pub mod Secrets
pub mod Guarded
use ai_gcm.Base.{String, Option, List, [], ◌∷◌, ◌==◌, if◌then◌else◌}
use ai_gcm.Effect.{done, ◌>>=◌}
use ai_gcm.Js.{str, object}
use ai_gcm.Http.{Response, reply}
use ai_gcm.Gateway.Calls.{Gateway, User}
use ai_gcm.Gateway.Authenticate.{Gate, denied, admitted, authenticate}

pub enter : (User → Gateway Response) → Gate → Gateway Response
enter handler (denied response) = done response
enter handler (admitted user) = handler user

-- A request to a route: /health is open, every other handler runs with the user of the token.
unfoldable pub serve :
    (secret header : Option String)
    → (path : String) → Gateway Response
    → (User → Gateway Response)
    → Gateway Response
unfolding enter
serve secret header path health handler =
    if path == "/health" then health else authenticate secret header >>= enter handler

-- GET /health.
abbrev pub health : Response
health =
    reply 200 (
      object
        (("status", str "ok") ∷ ("service", str "api-gateway") ∷ ("version", str "1.0.0") ∷ []))
