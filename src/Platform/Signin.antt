-- ===== src/Platform/Signin.antt =====
-- The form of the login, the authentication service that answers it, and the gateway that is asked
-- next (apps/web/src/app/(auth)/login/page.tsx, apps/web/src/lib/api.ts, apps/web/next.config.mjs;
-- services/auth-service/src/index.ts; services/api-gateway/src/middleware/authenticate.ts).
use ai_gcm.Base.{
  String, true, false, ◌≡◌, ◌≢◌, refl, ap, ◌∙◌, List, [], ◌∷◌, some, ◌==◌, ◌||◌, leb, ltb, ◌&&◌,
  eq_iff, arith,
}
use ai_gcm.Js.{Value, str, get}
use ai_gcm.Zod.{Zod, success}
use ai_gcm.Http.{Response}
use ai_gcm.Effect.Post.{recover, run-catch}
use ai_gcm.Effect.{Result, Error, ok, err, ok-injective, done, await, ◌>>=◌}
use ai_gcm.Effect.Run.{run, run-await, run-bind, continue}
use ai_gcm.Auth.Calls.{AuthEnv, Secrets, jwt_sign, Jwt}
use ai_gcm.Auth.Calls as AuthCalls
use ai_gcm.Auth.Email.{UserRecord, login_schema}
use ai_gcm.Auth.Email.Login.{Checked}
use ai_gcm.Auth.Server.{login, session_body}
use ai_gcm.Gateway.Calls as GatewayCalls
use ai_gcm.Gateway.Calls.{GatewayEnv}
use ai_gcm.Gateway.Authenticate.{admitted, authenticate}
use ai_gcm.Gateway.Authenticate.Complete.{bearer}
use ai_gcm.Web.Api as Api
use ai_gcm.Web.Api.{
  Api, ApiRequest, ApiResponse, ApiEnv, Session, RequestInit, api_request, posts, fetch, read_json,
}
use ai_gcm.Web.Signin.{
  Outcome, enter_as, login_failed, entered, login_user, credentials, submit_login, attempt,
}
use ai_gcm.Web.Store.{AppState, act, set_auth}
use ai_gcm.Web.Store.Requests.{session_of}
use ai_gcm.Auth.Server.Issued.{Carries, Granted}
use ai_gcm.Platform.Tokens.{login-Granted, carried-admitted, shared_secret, IsJose, as_gateway_user}

-- The request that the form of the login sends.
abbrev pub login_request :
    (text_of : Value → String) → Session → (email password : String) → ApiRequest
login_request text_of s email password =
    api_request text_of s "/api/auth/login" (posts (credentials email password))

-- The browser is given a service's reply as the answer to a request, through the rewrite of Next.js.
pub record Delivers (browser : ApiEnv) (hb : List Api.Call) (request : ApiRequest) (r : Response)
    : Type 0 where
  pub res : ApiResponse
  pub answered : browser hb (fetch request) ≡ ok res
  pub same_status : res.status ≡ r.status
  pub read : browser (fetch request ∷ hb) (read_json res) ≡ ok r.body

-- What the page hands to setAuth for a record of the authentication service.
abbrev pub dashboard_user : UserRecord → (access_token refresh_token : String) → Value
dashboard_user u access cookie = login_user (get (session_body u access cookie) "user")

-- A delivered reply of 200 is what the client returns.
module _ (browser : ApiEnv) (hb : List Api.Call) (text_of : Value → String) where
  read-delivered :
      (res : ApiResponse) {body : Value}
      → Api.is_ok res ≡ true
      → browser hb (read_json res) ≡ ok body
      → (run browser hb (Api.read_reply text_of res)).0 ≡ ok body
  unfolding Api.read_reply
  read-delivered res fine read = rw fine (ap (λ x. x.0) (run-await browser hb (read_json res) read))

is_ok-200 : (res : ApiResponse) → res.status ≡ 200 → Api.is_ok res ≡ true
is_ok-200 res e = ap (λ n. leb 200 n && ltb n 300) e

login-delivered :
    (browser : ApiEnv) (hb : List Api.Call) (text_of : Value → String) (s : Session)
    (email password : String) (r : Response)
    → Delivers browser hb (login_request text_of s email password) r
    → r.status ≡ 200
    → (run browser hb (Api.login text_of s (credentials email password))).0 ≡ ok r.body
unfolding Api.login Api.request
login-delivered browser hb text_of s email password r d accepted =
    let sent : Api.Call = fetch (login_request text_of s email password) in
    ap (λ x. x.0) (run-bind browser hb (await sent) (Api.read_reply text_of))
    ∙ (ap (λ x. (continue browser (Api.read_reply text_of) x).0)
          (run-await browser hb sent d.answered)
        ∙ read-delivered browser (sent ∷ hb) text_of d.res
            (is_ok-200 d.res (d.same_status ∙ accepted)) d.read)

module _ (browser : ApiEnv) {A : Type 0} where
  continue-ok :
      {B : Type 0} (f : A → Api B) (x : Result A × List Api.Call) {a : A} {b : B}
      → x.0 ≡ ok a
      → ((h : List Api.Call) → (run browser h (f a)).0 ≡ ok b)
      → (continue browser f x).0 ≡ ok b
  continue-ok f (ok a', h) e goes = ap (λ v. (run browser h (f v)).0) (ok-injective e) ∙ goes h
  continue-ok f (err x, h) e goes = cc

  recover-ok :
      (k : Error → Api A) (x : Result A × List Api.Call) {a : A}
      → x.0 ≡ ok a
      → (recover browser k x).0 ≡ ok a
  recover-ok k (ok a', h) e = e
  recover-ok k (err x, h) e = cc

-- A reply with a user is stored, whatever would have been done with a failure.
attempt-enters :
    (browser : ApiEnv) (hb : List Api.Call) (sent : Api Value) (failed : Error → Outcome)
    (access cookie : String) (u : UserRecord)
    → (run browser hb sent).0 ≡ ok (session_body u access cookie)
    → (run browser hb (attempt sent login_user failed)).0
      ≡ ok (entered (str access) (dashboard_user u access cookie))
unfolding attempt
attempt-enters browser hb sent failed access cookie u known =
    let enter : Value → Api Outcome = λ res. enter_as login_user res (get res "user") in
    ap (λ x. x.0) (run-catch browser hb (sent >>= enter) (λ e. done (failed e)))
    ∙ recover-ok browser (λ e. done (failed e)) (run browser hb (sent >>= enter))
        (ap (λ x. x.0) (run-bind browser hb sent enter)
          ∙ continue-ok browser enter (run browser hb sent) known (λ _. refl))

ne_is_false : (a : String) → a ≢ "" → (a == "") ≡ false
ne_is_false a p = ground (arith, eq_iff a "")

sent_if_filled : (a b : String) → a ≢ "" → b ≢ "" → ((a == "") || (b == "")) ≡ false
sent_if_filled a b p q = ground (arith, eq_iff a "", eq_iff b "")

submit_login-entered :
    (browser : ApiEnv) (hb : List Api.Call) (lower : String → String) (text_of : Value → String)
    (s : Session) (email password access cookie : String) (u : UserRecord)
    → email ≢ ""
    → password ≢ ""
    → (run browser hb (Api.login text_of s (credentials email password))).0
      ≡ ok (session_body u access cookie)
    → (run browser hb (submit_login lower text_of s email password)).0
      ≡ ok (entered (str access) (dashboard_user u access cookie))
unfolding submit_login
submit_login-entered browser hb lower text_of s email password access cookie u named secret known =
    rw (sent_if_filled email password named secret) (
      attempt-enters browser hb (Api.login text_of s (credentials email password))
        (login_failed lower email) access cookie u known)

-- Once that is stored, a request of the browser to the gateway carries the token.
headers_of-signed_in :
    (text_of : Value → String) (api_base path token : String) (user : Value) (st : AppState)
    (init : RequestInit)
    → text_of (str token) ≡ token
    → token ≢ ""
    → (api_request text_of
        (session_of api_base (act st (set_auth (str token) user)))
        path
        init).headers
      ≡ ("Content-Type", str "application/json") ∷ ("Authorization", str (bearer token)) ∷ []
headers_of-signed_in text_of api_base path token user st init reads filled =
    rw (ne_is_false token filled, reads) refl

-- Whoever signs a token gives a text that is not empty.
pub record GivesTokens (auth : AuthEnv) : Type 0 where
  pub gives :
      (h : List AuthCalls.Call) (jwt : Jwt) (secret token : String)
      → auth h (jwt_sign jwt secret) ≡ ok token
      → token ≢ ""

-- The form of the login, sent to the service, and the next request of the browser.
pub record Visit : Type 0 where
  pub email : String
  pub password : String
  pub session : Session
  pub state : AppState
  pub path : String
  pub init : RequestInit

-- The page goes on to the dashboard with the token that the service has signed for the user whose
-- password was checked; the next request carries it, and the gateway admits it for the organisation
-- and the role that the dashboard has.
pub record SignsIn (auth : AuthEnv) (gateway : GatewayEnv) (browser : ApiEnv)
    (h : List AuthCalls.Call) (h' : List GatewayCalls.Call) (hb : List Api.Call) (zod : Zod)
    (lower : String → String) (text_of : Value → String) (secret : String) (v : Visit)
    : Type 0 where
  pub form : Value
  pub parsed : zod login_schema (credentials v.email v.password) ≡ success form
  pub user : UserRecord
  pub checked : Checked auth h (get form "email") (get form "password") user
  pub token : String
  pub stored : Value
  pub enters :
      (run browser hb (submit_login lower text_of v.session v.email v.password)).0
      ≡ ok (entered (str token) stored)
  pub carries :
      (api_request text_of
        (session_of v.session.api_base (act v.state (set_auth (str token) stored)))
        v.path
        v.init).headers
      ≡ ("Content-Type", str "application/json") ∷ ("Authorization", str (bearer token)) ∷ []
  pub admits :
      (run gateway h' (authenticate (some secret) (some (bearer token)))).0
      ≡ ok (admitted (as_gateway_user user))
  pub same_id : get stored "id" ≡ user.id
  pub same_org : get stored "orgId" ≡ user.org_id
  pub same_role : get stored "role" ≡ user.role
  pub one_name : get stored "orgName" ≡ str "Acme Corp"

-- When the authentication service answers the form of the login by 200, its reply reaches the
-- browser, both fields of the form are filled, both services are given the same secret, jose
-- verifies each token that it signed, none of which is empty, and a text is written as itself in a
-- header: then the page stores the access token that was signed for the user whose password was
-- checked, the browser's next request carries it, whatever its path, and the gateway admits that
-- token for the user, with the id, the organisation and the role that the dashboard shows. The name
-- that is shown for the organisation is "Acme Corp" for every user.
pub submit_login-SignsIn :
    (auth : AuthEnv) (gateway : GatewayEnv) (browser : ApiEnv) (zod : Zod) (s : Secrets)
    (secret : String) (h : List AuthCalls.Call) (h' : List GatewayCalls.Call) (hb : List Api.Call)
    (lower : String → String) (text_of : Value → String) (v : Visit) (r : Response)
    → IsJose auth gateway
    → GivesTokens auth
    → s.jwt_secret ≡ some secret
    → secret ≢ ""
    → ((t : String) → text_of (str t) ≡ t)
    → v.email ≢ ""
    → v.password ≢ ""
    → (run auth h (login zod s (credentials v.email v.password))).0 ≡ ok r
    → r.status ≡ 200
    → Delivers browser hb (login_request text_of v.session v.email v.password) r
    → SignsIn auth gateway browser h h' hb zod lower text_of secret v
submit_login-SignsIn auth gateway browser zod s secret h h' hb lower text_of v r jose some_token set
      filled reads named given replied accepted delivered =
    let g : Granted auth s h (zod login_schema (credentials v.email v.password)) r.body =
      login-Granted auth zod s h (credentials v.email v.password) r replied accepted in
    let c : Carries auth s g.user r.body = g.carried in
    record {
      form = g.request;
      parsed = g.parsed;
      user = g.user;
      checked = g.checked;
      token = c.token;
      stored = dashboard_user g.user c.token c.cookie;
      enters =
          submit_login-entered browser hb lower text_of v.session v.email v.password c.token
            c.cookie g.user named given
            (login-delivered browser hb text_of v.session v.email v.password r delivered accepted
              ∙ ap ok c.sent);
      carries =
          headers_of-signed_in text_of v.session.api_base v.path c.token
            (dashboard_user g.user c.token c.cookie) v.state v.init (reads c.token)
            (some_token.gives c.history _ _ c.token c.signed);
      admits = carried-admitted auth gateway secret h' jose (shared_secret secret s set filled) c;
      same_id = refl;
      same_org = refl;
      same_role = refl;
      one_name = refl;
    }
