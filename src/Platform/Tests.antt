-- ===== src/Platform/Tests.antt =====
-- The theorems on the services together at concrete requests.
use ai_gcm.Base.{
  String, Bool, true, false, ◌≡◌, ◌≢◌, refl, inl, inr, none, some, [], ◌∷◌, ◌==◌, ◌&&◌, eq_iff,
  if◌then◌else◌, sym,
}
use ai_gcm.Js.{Value, object, str, get, is_undefined}
use ai_gcm.Zod.{Zod, success}
use ai_gcm.Effect.{Result, ok, err, plain, ok-injective}
use ai_gcm.Effect.Run.{run}
use ai_gcm.Auth.Calls.{jwt_sign, AuthEnv, Secrets, Jwt}
use ai_gcm.Auth.Memory.{memory, pool, ada, if-cases}
use ai_gcm.Auth.Email.{UserRecord, user_of, validate_credentials}
use ai_gcm.Auth.Jwt.{sign_access_token, sign_refresh_token}
use ai_gcm.Auth.Refresh.{create_refresh_session}
use ai_gcm.Auth.Server.{login, session_body}
use ai_gcm.Http.{Response, reply}
use ai_gcm.Gateway.Calls as GatewayCalls
use ai_gcm.Gateway.Calls.{GatewayEnv}
use ai_gcm.Web.Api as Api
use ai_gcm.Web.Store.{initial}
use ai_gcm.Platform.Signin.{Visit, SignsIn, submit_login-SignsIn}
use ai_gcm.Platform.Tokens.{SameClaims, IsJose, Admits, login-Admits}

-- Whether a claim is the given text.
abbrev is_text : Value → String → Bool
is_text (str s) t = s == t
is_text _ t = false

is_text-str : (v : Value) (t : String) → is_text v t ≡ true → v ≡ str t
is_text-str (str s) t e = rw ((eq_iff s t).0 e) refl
is_text-str Value.undefined t e = cc
is_text-str Value.null t e = cc
is_text-str (Value.bool b) t e = cc
is_text-str (Value.num n) t e = cc
is_text-str (Value.obj fs) t e = cc
is_text-str (Value.arr vs) t e = cc

-- Ada's claims in an access token, and in a refresh token.
abbrev ada_claims : Value
ada_claims = object (
    ("sub", str "ada")
    ∷ ("org_id", str "org")
    ∷ ("team_id", str "")
    ∷ ("role", str "super_admin")
    ∷ [])

abbrev ada_session : Value
ada_session = object (("sub", str "ada") ∷ [])

abbrev is_access : Value → Bool
is_access p =
    (is_text (get p "sub") "ada" && is_text (get p "org_id") "org")
    && (is_text (get p "team_id") "" && is_text (get p "role") "super_admin")

abbrev is_session : Value → Bool
is_session p =
    (is_text (get p "sub") "ada" && is_undefined (get p "org_id"))
    && (is_undefined (get p "team_id") && is_undefined (get p "role"))

and_true : (a b : Bool) → (a && b) ≡ true → (a ≡ true) × (b ≡ true)
and_true true b e = (refl, e)
and_true false b e = cc

four_true :
    (a b c d : Bool)
    → ((a && b) && (c && d)) ≡ true
    → (a ≡ true) × (b ≡ true) × (c ≡ true) × (d ≡ true)
four_true a b c d e =
    let (l, r) = and_true (a && b) (c && d) e in
    let (p, q) = and_true a b l in let (p', q') = and_true c d r in (p, q, p', q')

undefined_of : (v : Value) → is_undefined v ≡ true → v ≡ Value.undefined
undefined_of Value.undefined e = refl
undefined_of (str s) e = cc
undefined_of Value.null e = cc
undefined_of (Value.bool b) e = cc
undefined_of (Value.num n) e = cc
undefined_of (Value.obj fs) e = cc
undefined_of (Value.arr vs) e = cc

access_claims : (jwt : Jwt) → is_access jwt.payload ≡ true → SameClaims jwt ada_claims
access_claims jwt e =
    let (a, b, c, d) = four_true _ _ _ _ e in
    record {
      sub = sym (is_text-str _ "ada" a);
      org_id = sym (is_text-str _ "org" b);
      team_id = sym (is_text-str _ "" c);
      role = sym (is_text-str _ "super_admin" d);
    }

session_claims : (jwt : Jwt) → is_session jwt.payload ≡ true → SameClaims jwt ada_session
session_claims jwt e =
    let (a, b, c, d) = four_true _ _ _ _ e in
    record {
      sub = sym (is_text-str _ "ada" a);
      org_id = sym (undefined_of _ b);
      team_id = sym (undefined_of _ c);
      role = sym (undefined_of _ d);
    }

-- An installation that signs tokens for Ada only.
abbrev sign_ada : Value → Result String
sign_ada p =
    if is_access p then ok "access" else (if is_session p then ok "session" else err (plain "no"))

abbrev for_ada : AuthEnv
for_ada h (jwt_sign jwt secret) = sign_ada jwt.payload
for_ada h c = memory pool h c

abbrev claims_of : String → Value
claims_of token = if token == "access" then ada_claims else ada_session

abbrev gateway : GatewayEnv
gateway h (GatewayCalls.jwt_verify token secret) = ok (claims_of token)
gateway h c = err (plain "not called")

sign_ada-claims :
    (jwt : Jwt) (token : String)
    → sign_ada jwt.payload ≡ ok token
    → SameClaims jwt (claims_of token)
sign_ada-claims jwt token e = elim (if-cases (is_access jwt.payload) e) [
  | inl (same, p) ↦ rw (sym (ok-injective p)) (access_claims jwt same)
  | inr (apart, p) ↦ elim (if-cases (is_session jwt.payload) p) [
    | inl (same, q) ↦ rw (sym (ok-injective q)) (session_claims jwt same)
    | inr (apart', q) ↦ cc
  ]
]

for_ada-IsJose : IsJose for_ada gateway
for_ada-IsJose = record {
  verifies = λ h h' jwt secret token e. (claims_of token, refl, sign_ada-claims jwt token e);
}

abbrev secrets : Secrets
secrets = record { jwt_secret = some "k"; jwt_refresh_secret = none }

abbrev form : Value
form = object (("email", str "ada@org.example") ∷ ("password", str "correct horse") ∷ [])

-- A validation that accepts everything.
abbrev lenient : Zod
lenient schema v = success v

abbrev ada_record : UserRecord
ada_record = user_of ada

abbrev logged_in : Response
logged_in = reply 200 (session_body ada_record "access" "a.session")

ada_logs_in : (run for_ada [] (login lenient secrets form)).0 ≡ ok logged_in
unfolding login validate_credentials create_refresh_session sign_access_token sign_refresh_token
ada_logs_in = refl

login-Admits_example : Admits for_ada gateway "k" secrets [] [] lenient form logged_in.body
login-Admits_example =
    login-Admits for_ada gateway lenient secrets "k" [] [] form logged_in for_ada-IsJose refl
      (λ e. absurd cc) ada_logs_in refl

-- The browser is answered by what the authentication service replies to Ada.
abbrev browser : Api.ApiEnv
browser h (Api.fetch request) = ok (record { status = 200; status_text = "OK" })
browser h (Api.read_json res) = ok logged_in.body

abbrev as_text : Value → String
as_text (str t) = t
as_text _ = ""

sign_ada-filled : (jwt : Jwt) (token : String) → sign_ada jwt.payload ≡ ok token → token ≢ ""
sign_ada-filled jwt token e empty = elim (if-cases (is_access jwt.payload) e) [
  | inl (same, p) ↦ absurd cc
  | inr (apart, p) ↦ elim (if-cases (is_session jwt.payload) p) [
    | inl (same, q) ↦ absurd cc
    | inr (apart', q) ↦ absurd cc
  ]
]

abbrev visit : Visit
visit = record {
  email = "ada@org.example";
  password = "correct horse";
  session = record {
    token = Value.null;
    store_token = Value.null;
    api_base = "http://localhost:3001";
  };
  state = initial Value.null;
  path = "/api/v1/usage";
  init = Api.gets;
}

submit_login-SignsIn_example :
    SignsIn for_ada gateway browser [] [] [] lenient (λ t. t) as_text "k" visit
submit_login-SignsIn_example =
    submit_login-SignsIn for_ada gateway browser lenient secrets "k" [] [] [] (λ t. t) as_text visit
      logged_in for_ada-IsJose
      (record { gives = λ h jwt secret token e. sign_ada-filled jwt token e }) refl (λ e. absurd cc)
      (λ t. refl) (λ e. absurd cc) (λ e. absurd cc) ada_logs_in refl
      (record {
        res = record { status = 200; status_text = "OK" };
        answered = refl;
        same_status = refl;
        read = refl;
      })
