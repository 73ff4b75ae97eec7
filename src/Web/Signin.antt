-- ===== src/Web/Signin.antt =====
-- What the forms of the login and of the registration do when they are sent
-- (apps/web/src/app/(auth)/login/page.tsx, signup/page.tsx). `lower` is toLowerCase.
pub mod Outcomes
use Prim.Native.String.{[], ◌∷◌, ◌++◌}
use Prim.Native.Char.{code}
use text.Mathlib.Text.{starts_with}
use mathlib.Core.List
use ai_gcm.Base.{ℕ, ◌+◌, String, Bool, true, false, not, ◌||◌, ◌&&◌, leb, ltb, ◌==◌, if◌then◌else◌}
use ai_gcm.Js.{Value, str, get, object, or_falsy, truthy}
use ai_gcm.Effect.{Error, done, throw, plain, catch, ◌>>=◌}
use ai_gcm.Web.Api.{Api, Session}
use ai_gcm.Web.Api

-- setAuth and the way to the dashboard, or the message that the form shows.
pub data Outcome : Type 0 where
  entered : (token user : Value) → Outcome
  refused : (message : String) → Outcome

-- `s.includes(t)`.
unfoldable pub includes : (t s : String) → Bool
includes t [] = t == ""
includes t (c ∷ s) = starts_with (c ∷ s) t || includes t s

-- `s.length`, in UTF-16 units.
unfoldable pub units : String → ℕ
units [] = 0
units (c ∷ s) = (if leb 65536 (code c) then 2 else 1) + units s

-- The reads of `res.user`, which throw where there is none, and setAuth.
abbrev pub enter_as : (make_user : Value → Value) → (res user : Value) → Api Outcome
enter_as make_user res Value.null = throw (plain "Cannot read properties of null")
enter_as make_user res Value.undefined = throw (plain "Cannot read properties of undefined")
enter_as make_user res user = done (entered (get res "access_token") (make_user user))

-- `try { const res = await …; setAuth(…) } catch (err) { … }`.
unfoldable pub attempt : Api Value → (Value → Value) → (Error → Outcome) → Api Outcome
attempt sent make_user recover =
    catch (sent >>= λ res. enter_as make_user res (get res "user")) (λ e. done (recover e))

abbrev pub login_user : Value → Value
login_user user = object (
    List.◌∷◌ ("id", get user "id")
      (List.◌∷◌ ("email", get user "email")
        (List.◌∷◌ ("name", get user "name")
          (List.◌∷◌ ("role", get user "role")
            (List.◌∷◌ ("orgId", get user "org_id")
              (List.◌∷◌ ("orgName", or_falsy (get user "org_name") (str "Acme Corp")) List.[]))))))

abbrev pub is_demo : (lower : String → String) → String → Bool
is_demo lower email =
    includes "admin" (lower email) || includes "demo" (lower email) || includes "test" (lower email)

abbrev pub demo_user : String → Value
demo_user email = object (
    List.◌∷◌ ("id", str "usr_admin_default")
      (List.◌∷◌ ("email", str email)
        (List.◌∷◌ ("name", str "Platform Administrator")
          (List.◌∷◌ ("role", str "admin")
            (List.◌∷◌ ("orgId", str "org_acme_corp")
              (List.◌∷◌ ("orgName", str "Acme Enterprise") List.[]))))))

abbrev pub message_or : Error → String → String
message_or e fallback = if e.message == "" then fallback else e.message

abbrev pub login_failed : (lower : String → String) → String → Error → Outcome
login_failed lower email e =
    if is_demo lower email
    then entered (str "demo_jwt_token_active") (demo_user email)
    else refused
        (message_or e "Failed to sign in. Please verify your credentials or use the demo login.")

abbrev pub credentials : String → String → Value
credentials email password =
    object (List.◌∷◌ ("email", str email) (List.◌∷◌ ("password", str password) List.[]))

-- handleSubmit of the login.
unfoldable pub submit_login :
    (lower : String → String)
    → (text_of : Value → String) → Session
    → (email password : String) → Api Outcome
unfolding attempt includes
submit_login lower text_of s email password =
    if (email == "") || (password == "")
    then done (refused "Please provide both work email and password.")
    else attempt (Api.login text_of s (credentials email password)) login_user
        (login_failed lower email)

pub data Provider : Type 0 where
  github saml : Provider

abbrev pub provider_text : Provider → String
provider_text github = "github"
provider_text saml = "saml"

abbrev pub sso_email : Provider → String
sso_email github = "engineer@github-auth.corp"
sso_email saml = "enterprise-lead@okta-sso.corp"

abbrev pub sso_name : Provider → String
sso_name github = "GitHub AI Engineer"
sso_name saml = "Enterprise Security Lead"

abbrev pub sso_user : Provider → Value
sso_user p = object (
    List.◌∷◌ ("id", str ("usr_" ++ (provider_text p ++ "_verified")))
      (List.◌∷◌ ("email", str (sso_email p))
        (List.◌∷◌ ("name", str (sso_name p))
          (List.◌∷◌ ("role", str "admin")
            (List.◌∷◌ ("orgId", str "org_enterprise_sso")
              (List.◌∷◌ ("orgName", str "Acme Enterprise") List.[]))))))

-- handleSsoLogin, after its delay: no service is asked.
abbrev pub sso_login : Provider → Outcome
sso_login p = entered (str ("sso_" ++ (provider_text p ++ "_token_active"))) (sso_user p)

pub record LoginForm : Type 0 where
  pub email : String
  pub password : String

-- handleQuickDemo.
abbrev pub quick_demo : LoginForm
quick_demo = record { email = "admin@company.com"; password = "password123" }

-- The effect that leaves the page when someone is signed in already.
abbrev pub leaves_login : (token user : Value) → Bool
leaves_login token user = truthy token && truthy user
