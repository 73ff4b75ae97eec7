-- ===== src/Gateway/Authenticate/Sound.antt =====
-- Whom the hook admits (services/api-gateway/src/middleware/authenticate.ts).
use text.Mathlib.Text.{starts_with}
use ai_gcm.Base.{String, ◌≡◌, refl, inl, inr, Bool-cases, Option, none, some, List, true}
use ai_gcm.Js.{Value}
use ai_gcm.Js.Text.{slice_from}
use ai_gcm.Effect.{Result, ok, err, done, await, ◌>>=◌}
use ai_gcm.Effect.Post.{Post, Post-await, Post-catch}
use ai_gcm.Http.{error_reply}
use ai_gcm.Gateway.Calls.{Call, jwt_verify, GatewayEnv, User}
use ai_gcm.Gateway.Authenticate.{
  Gate, denied, admitted, user_of, jwt_secret, verify_bearer, authenticate,
}

-- The header carries a token that jose verifies under the gateway's secret, and the user is the
-- one whom its payload names.
pub record Admission (env : GatewayEnv) (h : List Call) (secret header : Option String) (u : User)
    : Type 0 where
  pub text : String
  pub given : header ≡ some text
  pub bearer : starts_with text "Bearer " ≡ true
  pub payload : Value
  pub verified : env h (jwt_verify (slice_from 7 text) (jwt_secret secret)) ≡ ok payload
  pub named : u ≡ user_of payload

abbrev pub Gated :
    GatewayEnv → List Call → (secret header : Option String) → Result Gate → List Call → Type 0
Gated env h secret header (ok (admitted u)) h' = Admission env h secret header u
Gated env h secret header (ok (denied r)) h' = r.status ≡ 401
Gated env h secret header (err e) h' = ⊥

module _ (env : GatewayEnv) (h : List Call) (secret : Option String) where
  abbrev Verified : String → Result Gate → List Call → Type 0
  Verified text (ok (admitted u)) h' =
      (p : Value) × (env h (jwt_verify (slice_from 7 text) (jwt_secret secret)) ≡ ok p)
      × (u ≡ user_of p)
  Verified text (ok (denied r)) h' = ⊥
  Verified text (err e) h' = Unit

  verify-Gated :
      (text : String)
      → starts_with text "Bearer " ≡ true
      → Post env (Gated env h secret (some text)) h (verify_bearer secret text)
  unfolding verify_bearer
  verify-Gated text bearer =
      let c : Call = jwt_verify (slice_from 7 text) (jwt_secret secret) in
      Post-catch env (Verified text) (Gated env h secret (some text)) h
        (await c >>= λ payload. done (admitted (user_of payload)))
        (λ e. done (denied (error_reply 401 "Invalid or expired token")))
        (Post-await env (Verified text) h c _ (λ p known. (p, known, refl)) (λ _ _. tt))
        (kept bearer) (λ _ _ _. refl)
    where
      kept :
          starts_with text "Bearer " ≡ true
          → (g : Gate) (h' : List Call) → Verified text (ok g) h'
          → Gated env h secret (some text) (ok g) h'
      kept b (admitted u) h' (p, known, named) = record {
        text = text;
        given = refl;
        bearer = b;
        payload = p;
        verified = known;
        named = named;
      }
      kept b (denied r) h' x = elim x [ ]

  -- The hook never throws; it admits only the user of a token that is verified under the
  -- gateway's secret, and denies by 401.
  pub authenticate-Gated :
      (header : Option String) → Post env (Gated env h secret header) h (authenticate secret header)
  unfolding authenticate
  authenticate-Gated none = refl
  authenticate-Gated (some text) = elim (Bool-cases (starts_with text "Bearer ")) [
    | inl bearer ↦ rw (bearer, authenticate) (verify-Gated text bearer)
    | inr basic ↦ rw (basic, authenticate) refl
  ]
