-- ===== src/Web/Registration.antt =====
-- handleSubmit of the registration (apps/web/src/app/(auth)/signup/page.tsx).
pub mod Outcomes
use Prim.Native.String.{◌++◌ as ◌<>◌}
use ai_gcm.Base.{ℕ, String, Bool, false, List, [], ◌∷◌, ltb, not, ◌||◌, ◌&&◌, ◌==◌, if◌then◌else◌}
use ai_gcm.Js.{Value, str, get, object, or_falsy}
use ai_gcm.Effect.{Error, done}
use ai_gcm.Web.Api.{Api, Session, register}
use ai_gcm.Web.Signin.{Outcome, entered, refused, includes, units, attempt, message_or}
use ai_gcm.Web.Signup.{dashed, slug_of}

pub record SignupForm : Type 0 where
  pub org_name : String
  pub org_slug : String
  pub name : String
  pub email : String
  pub password : String
  pub agree_terms : Bool

abbrev pub signup_body : (lower : String → String) → SignupForm → Value
signup_body lower f = object (
    ("org_name", str f.org_name)
    ∷ ("org_slug", str (if f.org_slug == "" then dashed false (lower f.org_name) else f.org_slug))
    ∷ ("email", str f.email)
    ∷ ("name", str f.name)
    ∷ ("password", str f.password)
    ∷ [])

abbrev pub registered_user : SignupForm → Value → Value
registered_user f user = object (
    ("id", get user "id")
    ∷ ("email", get user "email")
    ∷ ("name", get user "name")
    ∷ ("role", or_falsy (get user "role") (str "admin"))
    ∷ ("orgId", get user "org_id")
    ∷ ("orgName", str f.org_name)
    ∷ [])

-- The session that is made up when the request fails.
abbrev pub mock_user : SignupForm → Value
mock_user f = object (
    ("id", str "usr_new_org_admin")
    ∷ ("email", str f.email)
    ∷ ("name", str f.name)
    ∷ ("role", str "admin")
    ∷ ("orgId", str ("org_" <> (if f.org_slug == "" then "acme" else f.org_slug)))
    ∷ ("orgName", str f.org_name)
    ∷ [])

abbrev pub is_mocked : SignupForm → Bool
is_mocked f = includes "@" f.email && not (f.org_name == "")

abbrev pub signup_failed : SignupForm → Error → Outcome
signup_failed f e =
    if is_mocked f
    then entered (str "demo_registered_jwt_token") (mock_user f)
    else refused (
        message_or e
          "Registration failed. An account with this email or organization may already exist.")

abbrev pub is_incomplete : SignupForm → Bool
is_incomplete f = (f.org_name == "") || ((f.name == "") || ((f.email == "") || (f.password == "")))

-- The checks of the form, in order, and the request.
unfoldable pub submit_signup :
    (lower : String → String) → (text_of : Value → String) → Session → SignupForm → Api Outcome
unfolding attempt includes units dashed
submit_signup lower text_of s f =
    if is_incomplete f
    then done (refused "Please complete all required fields.")
    else if ltb (units f.password) 8
    then done (refused "Password must be at least 8 characters long.")
    else if not f.agree_terms
    then done (refused "Please accept the Enterprise Terms of Service to continue.")
    else attempt (register text_of s (signup_body lower f)) (registered_user f) (signup_failed f)

-- handleOrgNameChange.
unfoldable pub change_org_name : (lower : String → String) → String → SignupForm → SignupForm
unfolding slug_of
change_org_name lower val f = record f { org_name = val; org_slug = slug_of (lower val) }

-- handleQuickDemoFill.
unfoldable pub quick_demo_fill : (lower : String → String) → SignupForm → SignupForm
unfolding change_org_name
quick_demo_fill lower f = record (change_org_name lower "Acme Corp" f) {
  name = "Alex Chen";
  email = "alex@acme.corp";
  password = "Enterprise2026!";
}
