-- ===== src/Gateway/Server/Secrets.antt =====
-- The secrets of the two services (services/api-gateway/src/middleware/authenticate.ts,
-- services/auth-service/src/session/jwt.ts).
use mathlib.Core.Option.{some-injective}
use ai_gcm.Base.{String, ◌≡◌, ◌≢◌, refl, sym, ap, ◌∙◌, ◌⊎◌, inl, inr, none, some, List, eq_iff}
use ai_gcm.Js.{Value}
use ai_gcm.Js.Text.{slice_from, slice_from-append}
use ai_gcm.Effect.{Result, ok, err}
use ai_gcm.Effect.Run.{run, await-answer}
use ai_gcm.Http.{Response}
use ai_gcm.Gateway.Calls.{Call, jwt_verify, GatewayEnv}
use ai_gcm.Gateway.Authenticate.{Gate, denied, admitted, authenticate}
use ai_gcm.Gateway.Authenticate.Complete.{bearer}
use ai_gcm.Gateway.Authenticate.Sound.{Gated, authenticate-Gated}
use ai_gcm.Auth.Calls as AuthCalls
use ai_gcm.Auth.Calls.{AuthEnv, Secrets, Jwt, jwt_sign}
use ai_gcm.Auth.Jwt.{
  TokenPayload, access_secret, refresh_secret, access_jwt, refresh_jwt, sign_access_token,
  sign_refresh_token, or_default,
}

-- HS256, as jose implements it: a token that was signed under one secret is verified under no
-- other one.
pub record IsHmac (auth : AuthEnv) (gateway : GatewayEnv) : Type 0 where
  pub one_secret :
      (h : List AuthCalls.Call) (h' : List Call) (jwt : Jwt) (signing verifying token : String)
      (p : Value)
      → auth h (jwt_sign jwt signing) ≡ ok token
      → gateway h' (jwt_verify token verifying) ≡ ok p
      → signing ≡ verifying

-- The authentication service has signed the token, as an access token or as a refresh token.
abbrev pub IsSigned : AuthEnv → Secrets → List AuthCalls.Call → String → Type 0
IsSigned auth s h token =
    ((p : TokenPayload) × ((run auth h (sign_access_token s p)).0 ≡ ok token))
    ⊎ ((user : Value) × ((run auth h (sign_refresh_token s user)).0 ≡ ok token))

access_differs : ◌≢◌ {A = String} "dev-access-secret" "dev-secret"
access_differs e = cc ((eq_iff "dev-access-secret" "dev-secret").1 e)

refresh_differs : ◌≢◌ {A = String} "dev-refresh-secret" "dev-secret"
refresh_differs e = cc ((eq_iff "dev-refresh-secret" "dev-secret").1 e)

module _ {auth : AuthEnv} {gateway : GatewayEnv} (hmac : IsHmac auth gateway) (s : Secrets)
    (h : List AuthCalls.Call) (h' : List Call) (token : String) where
  -- It was signed under a secret that is not the gateway's default.
  other_secret :
      s.jwt_secret ≡ none
      → s.jwt_refresh_secret ≡ none
      → IsSigned auth s h token
      → (p : Value) → gateway h' (jwt_verify token "dev-secret") ≡ ok p
      → ⊥
  unfolding sign_access_token sign_refresh_token
  other_secret access refresh (inl (c, signed)) p known = access_differs (
      sym (ap (λ o. or_default o "dev-access-secret") access)
      ∙ hmac.one_secret h h' (access_jwt c) (access_secret s) "dev-secret" token p
          (sym (await-answer auth h (jwt_sign (access_jwt c) (access_secret s))) ∙ signed) known)
  other_secret access refresh (inr (u, signed)) p known = refresh_differs (
      sym (ap (λ o. or_default o "dev-refresh-secret") refresh)
      ∙ hmac.one_secret h h' (refresh_jwt u) (refresh_secret s) "dev-secret" token p
          (sym (await-answer auth h (jwt_sign (refresh_jwt u) (refresh_secret s))) ∙ signed) known)

  not_admitted :
      (IsSigned auth s h token
        → s.jwt_secret ≡ none
        → s.jwt_refresh_secret ≡ none
        → (x : Result Gate) (after : List Call)
        → Gated gateway h' none (some (bearer token)) x after
        → (r : Response) × (x ≡ ok (denied r)) × (r.status ≡ 401))
  not_admitted signed access refresh (ok (denied r)) after e = (r, refl, e)
  not_admitted signed access refresh (err x) after e = elim e [ ]
  not_admitted signed access refresh (ok (admitted u)) after a =
      let same : a.text ≡ bearer token = sym (some-injective (bearer token) a.text a.given) in
      let cut : slice_from 7 a.text ≡ token =
        ap (slice_from 7) same ∙ slice_from-append "Bearer " token in
      absurd (other_secret access refresh signed a.payload (rw cut at a.verified))

-- In an installation that sets neither JWT_SECRET nor JWT_REFRESH_SECRET for its services, the
-- gateway denies by 401 every bearer token that the authentication service has signed, be it an
-- access token or a refresh token, provided that jose verifies a token under no secret but the one
-- that it was signed under: the defaults of the two services differ.
pub default_secrets_deny :
    (auth : AuthEnv) (gateway : GatewayEnv) (s : Secrets) (h : List AuthCalls.Call) (h' : List Call)
    (token : String)
    → IsHmac auth gateway
    → s.jwt_secret ≡ none
    → s.jwt_refresh_secret ≡ none
    → IsSigned auth s h token
    → (r : Response) × ((run gateway h' (authenticate none (some (bearer token)))).0
        ≡ ok (denied r))
      × (r.status ≡ 401)
default_secrets_deny auth gateway s h h' token hmac access refresh signed =
    not_admitted hmac s h h' token signed access refresh _ _
      (authenticate-Gated gateway h' none (some (bearer token)))
