-- ===== src/Web/Registration/Outcomes.antt =====
-- Who gets to the dashboard by the registration (apps/web/src/app/(auth)/signup/page.tsx).
use ai_gcm.Base.{String, refl, inl, inr, not, ltb, Bool-cases, List}
use ai_gcm.Js.{Value}
use ai_gcm.Effect.Post.{Post}
use ai_gcm.Web.Api.{Call, ApiEnv, Session, register}
use ai_gcm.Web.Signin.{units}
use ai_gcm.Web.Signin.Outcomes.{Signed, attempt-Signed}
use ai_gcm.Web.Registration.{
  SignupForm, signup_body, registered_user, is_mocked, signup_failed, is_incomplete, submit_signup,
}

-- The form of the registration never throws, and it leads to the dashboard only with the token of a
-- reply of the authentication service, or, whatever that service has answered, for an address with
-- an `@` and a name of the organisation.
pub submit_signup-Signed :
    (env : ApiEnv) (h : List Call) (lower : String → String) (text_of : Value → String)
    (s : Session) (f : SignupForm)
    → Post env
        (Signed env h (register text_of s (signup_body lower f)) (is_mocked f))
        h
        (submit_signup lower text_of s f)
unfolding submit_signup
submit_signup-Signed env h lower text_of s f = elim (Bool-cases (is_incomplete f)) [
  | inl missing ↦ rw (missing, submit_signup) tt
  | inr complete ↦ elim (Bool-cases (ltb (units f.password) 8)) [
    | inl short ↦ rw (complete, short, submit_signup) tt
    | inr long ↦ elim (Bool-cases (not f.agree_terms)) [
      | inl declined ↦ rw (complete, long, declined, submit_signup) tt
      | inr agreed ↦
          rw (complete, long, agreed, submit_signup)
            (attempt-Signed env h (register text_of s (signup_body lower f)) (registered_user f)
              (signup_failed f) (is_mocked f)
              (elim (Bool-cases (is_mocked f)) [
                | inl mocked ↦ λ e. rw mocked (inr refl)
                | inr other ↦ λ e. rw other tt
              ]))
    ]
  ]
]
