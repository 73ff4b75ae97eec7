-- ===== src/Platform/Tokens.antt =====
-- An access token of the authentication service at the gateway
-- (services/auth-service/src/index.ts, session/jwt.ts; services/api-gateway/src/middleware/authenticate.ts).
use mathlib.Core.Path.{subst}
use ai_gcm.Base.{String, ◌≡◌, ◌≢◌, refl, ap, ◌∙◌, inl, inr, some, List, eq_iff, arith}
use ai_gcm.Js.{Value, get, str, or_else}
use ai_gcm.Zod.{Zod, success}
use ai_gcm.Http.{Response}
use ai_gcm.Effect.{ok}
use ai_gcm.Effect.Run.{run}
use ai_gcm.Auth.Calls.{AuthEnv, Secrets, Jwt, jwt_sign}
use ai_gcm.Auth.Calls as AuthCalls
use ai_gcm.Auth.Jwt.{access_jwt, access_secret}
use ai_gcm.Auth.Email.{UserRecord, login_schema}
use ai_gcm.Auth.Email.Login.{Checked}
use ai_gcm.Auth.Server.{login, payload_of}
use ai_gcm.Auth.Server.Issued.{Carries, Granted, LoggedIn, login-LoggedIn}
use ai_gcm.Gateway.Calls as GatewayCalls
use ai_gcm.Gateway.Calls.{GatewayEnv, User, jwt_verify}
use ai_gcm.Gateway.Authenticate.{admitted, user_of, jwt_secret, authenticate}
use ai_gcm.Gateway.Authenticate.Complete.{bearer, authenticate-verified}

-- The claims that the gateway reads are those that were signed.
pub record SameClaims (jwt : Jwt) (payload : Value) : Type 0 where
  pub sub : get payload "sub" ≡ get jwt.payload "sub"
  pub org_id : get payload "org_id" ≡ get jwt.payload "org_id"
  pub team_id : get payload "team_id" ≡ get jwt.payload "team_id"
  pub role : get payload "role" ≡ get jwt.payload "role"

-- jose: a token that was signed with a secret is verified under that secret, with its claims,
-- until it expires.
pub record IsJose (auth : AuthEnv) (gateway : GatewayEnv) : Type 0 where
  pub verifies :
      (h : List AuthCalls.Call) (h' : List GatewayCalls.Call) (jwt : Jwt) (secret token : String)
      → auth h (jwt_sign jwt secret) ≡ ok token
      → (payload : Value) × (gateway h' (jwt_verify token secret) ≡ ok payload)
        × SameClaims jwt payload

-- The user of the gateway that stands for a record of the authentication service.
abbrev pub as_gateway_user : UserRecord → User
as_gateway_user u = record {
  id = u.id;
  user_id = u.id;
  org_id = u.org_id;
  team_id = or_else u.team_id (str "");
  role = u.role;
}

user_of-SameClaims :
    (u : UserRecord) (payload : Value)
    → SameClaims (access_jwt (payload_of u)) payload
    → user_of payload ≡ as_gateway_user u
user_of-SameClaims u payload c = rw (c.sub, c.org_id, c.team_id, c.role)

pub shared_secret :
    (k : String) (s : Secrets)
    → s.jwt_secret ≡ some k
    → k ≢ ""
    → access_secret s ≡ jwt_secret (some k)
shared_secret k s set filled = rw set (ground (arith, eq_iff k ""))

-- A login that is answered by 200 has been granted.
pub login-Granted :
    (auth : AuthEnv) (zod : Zod) (s : Secrets) (h : List AuthCalls.Call) (request : Value)
    (r : Response)
    → (run auth h (login zod s request)).0 ≡ ok r
    → r.status ≡ 200
    → Granted auth s h (zod login_schema request) r.body
login-Granted auth zod s h request r replied accepted =
    let after : List AuthCalls.Call = (run auth h (login zod s request)).1 in
    let logged : LoggedIn auth s h (zod login_schema request) (ok r) after =
      subst (λ x. LoggedIn auth s h (zod login_schema request) x after) replied
        (login-LoggedIn auth zod s h request) in
    elim logged [
      | inl (inl bad) ↦ absurd (omega arith)
      | inl (inr denied) ↦ absurd (omega arith)
      | inr granted ↦ granted
    ]

module _ (auth : AuthEnv) (gateway : GatewayEnv) where
  -- The reply carries an access token, and the gateway admits that token for the user whose
  -- password was checked.
  pub record Admits (secret : String) (s : Secrets) (h : List AuthCalls.Call)
      (h' : List GatewayCalls.Call) (zod : Zod) (request : Value) (body : Value) : Type 0 where
    pub form : Value
    pub parsed : zod login_schema request ≡ success form
    pub user : UserRecord
    pub checked : Checked auth h (get form "email") (get form "password") user
    pub token : String
    pub sent : get body "access_token" ≡ str token
    pub admits :
        (run gateway h' (authenticate (some secret) (some (bearer token)))).0
        ≡ ok (admitted (as_gateway_user user))

  pub carried-admitted :
      (secret : String) {s : Secrets} {u : UserRecord} {body : Value} (h' : List GatewayCalls.Call)
      → IsJose auth gateway
      → access_secret s ≡ jwt_secret (some secret)
      → (c : Carries auth s u body)
      → (run gateway h' (authenticate (some secret) (some (bearer c.token)))).0
        ≡ ok (admitted (as_gateway_user u))
  carried-admitted secret {s} {u} h' jose same c =
      let jwt : Jwt = access_jwt (payload_of u) in
      let (payload, known, claims) =
        jose.verifies c.history h' jwt (access_secret s) c.token c.signed in
      authenticate-verified gateway h' (some secret) c.token (rw same at known)
      ∙ ap (λ v. ok (admitted v)) (user_of-SameClaims u payload claims)

  admits :
      (secret : String) {s : Secrets} {h : List AuthCalls.Call} {zod : Zod} {request body : Value}
      (h' : List GatewayCalls.Call)
      → IsJose auth gateway
      → access_secret s ≡ jwt_secret (some secret)
      → Granted auth s h (zod login_schema request) body
      → Admits secret s h h' zod request body
  admits secret h' jose same g = record {
    form = g.request;
    parsed = g.parsed;
    user = g.user;
    checked = g.checked;
    token = g.carried.token;
    sent = rw g.carried.sent refl;
    admits = carried-admitted secret h' jose same g.carried;
  }

-- When both services are given the same secret, a login that is answered by 200 carries an access
-- token that the gateway admits, for the user whose password was checked, with that user's
-- organisation, team and role; provided that jose verifies, with the claims that were signed, each
-- token that it signed under the same secret.
pub login-Admits :
    (auth : AuthEnv) (gateway : GatewayEnv) (zod : Zod) (s : Secrets) (secret : String)
    (h : List AuthCalls.Call) (h' : List GatewayCalls.Call) (request : Value) (r : Response)
    → IsJose auth gateway
    → s.jwt_secret ≡ some secret
    → secret ≢ ""
    → (run auth h (login zod s request)).0 ≡ ok r
    → r.status ≡ 200
    → Admits auth gateway secret s h h' zod request r.body
login-Admits auth gateway zod s secret h h' request r jose set filled replied accepted =
    admits auth gateway secret h' jose (shared_secret secret s set filled)
      (login-Granted auth zod s h request r replied accepted)
