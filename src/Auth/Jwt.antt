-- ===== src/Auth/Jwt.antt =====
-- Signing and verifying tokens (services/auth-service/src/session/jwt.ts).
use ai_gcm.Base.{String, Option, none, some, [], ◌∷◌, ◌==◌, if◌then◌else◌}
use ai_gcm.Js.{Value, object, get}
use ai_gcm.Effect.{◌>>=◌, done, await}
use ai_gcm.Auth.Calls.{Jwt, VerifyOptions, jwt_sign, jwt_verify, Auth, Secrets}

-- `process.env.NAME || fallback`.
abbrev pub or_default : Option String → String → String
or_default none fallback = fallback
or_default (some s) fallback = if s == "" then fallback else s

abbrev pub access_secret : Secrets → String
access_secret s = or_default s.jwt_secret "dev-access-secret"

abbrev pub refresh_secret : Secrets → String
refresh_secret s = or_default s.jwt_refresh_secret "dev-refresh-secret"

abbrev pub access_ttl : String
access_ttl = "7d"

abbrev pub refresh_ttl : String
refresh_ttl = "30d"

pub record TokenPayload : Type 0 where
  pub sub : Value
  pub org_id : Value
  pub team_id : Value
  pub role : Value
  pub email : Value

abbrev pub access_jwt : TokenPayload → Jwt
access_jwt p = record {
  payload = object (
      ("sub", p.sub)
      ∷ ("org_id", p.org_id)
      ∷ ("team_id", p.team_id)
      ∷ ("role", p.role)
      ∷ ("email", p.email)
      ∷ []);
  alg = "HS256";
  expiration = access_ttl;
  issuer = "ai-gcm-auth";
  audience = some "ai-gcm-api";
}

abbrev pub refresh_jwt : Value → Jwt
refresh_jwt user_id = record {
  payload = object (("sub", user_id) ∷ []);
  alg = "HS256";
  expiration = refresh_ttl;
  issuer = "ai-gcm-auth";
  audience = none;
}

abbrev pub access_options : VerifyOptions
access_options = record { issuer = some "ai-gcm-auth"; audience = some "ai-gcm-api" }

abbrev pub refresh_options : VerifyOptions
refresh_options = record { issuer = some "ai-gcm-auth"; audience = none }

unfoldable pub sign_access_token : Secrets → TokenPayload → Auth String
sign_access_token s payload = await (jwt_sign (access_jwt payload) (access_secret s))

unfoldable pub sign_refresh_token : Secrets → Value → Auth String
sign_refresh_token s user_id = await (jwt_sign (refresh_jwt user_id) (refresh_secret s))

unfoldable pub verify_access_token : Secrets → String → Auth TokenPayload
verify_access_token s token = do
  payload ← await (jwt_verify token (access_secret s) access_options)
  done (record {
    sub = get payload "sub";
    org_id = get payload "org_id";
    team_id = get payload "team_id";
    role = get payload "role";
    email = get payload "email";
  })

unfoldable pub verify_refresh_token : Secrets → String → Auth Value
verify_refresh_token s token = do
  payload ← await (jwt_verify token (refresh_secret s) refresh_options)
  done (get payload "sub")
