-- ===== src/Web/Signin/Outcomes.antt =====
-- Who gets to the dashboard by the login (apps/web/src/app/(auth)/login/page.tsx).
use ai_gcm.Base.{String, ◌≡◌, refl, ◌⊎◌, inl, inr, true, Bool, Bool-cases, List, ◌==◌, ◌||◌}
use ai_gcm.Js.{Value, get}
use ai_gcm.Effect.{Error, Result, ok, err, done, ◌>>=◌}
use ai_gcm.Effect.Run.{run}
use ai_gcm.Effect.Post.{Post, Post-bind, Post-catch}
use ai_gcm.Web.Api.{Call, Api, ApiEnv, Session, login}
use ai_gcm.Web.Signin.{
  Outcome, entered, refused, enter_as, attempt, login_user, is_demo, login_failed, credentials,
  submit_login,
}

module _ (env : ApiEnv) (h : List Call) (sent : Api Value) where
  -- The token is the one that the service has replied with.
  abbrev pub Granted : Value → Type 0
  Granted token = (res : Value) × ((run env h sent).0 ≡ ok res) × (token ≡ get res "access_token")

  abbrev Steps : Result Outcome → List Call → Type 0
  Steps (ok (entered token user)) h' = Granted token
  Steps (ok (refused message)) h' = ⊥
  Steps (err e) h' = Unit

  enter-Steps :
      (make_user : Value → Value) (res user : Value) (h' : List Call)
      → (run env h sent).0 ≡ ok res
      → Post env Steps h' (enter_as make_user res user)
  enter-Steps make_user res Value.null h' p = tt
  enter-Steps make_user res Value.undefined h' p = tt
  enter-Steps make_user res (Value.str s) h' p = (res, p, refl)
  enter-Steps make_user res _ h' p = (res, p, refl)

  -- A service's token, or an address for a demonstration.
  abbrev pub Signed : Bool → Result Outcome → List Call → Type 0
  Signed demo (ok (entered token user)) h' = Granted token ⊎ (demo ≡ true)
  Signed demo (ok (refused message)) h' = Unit
  Signed demo (err e) h' = ⊥

  pub attempt-Signed :
      (make_user : Value → Value) (recover : Error → Outcome) (demo : Bool)
      → ((e : Error) → Signed demo (ok (recover e)) h)
      → Post env (Signed demo) h (attempt sent make_user recover)
  unfolding attempt
  attempt-Signed make_user recover demo recovered =
      Post-catch env Steps (Signed demo) h (sent >>= λ res. enter_as make_user res (get res "user"))
        (λ e. done (recover e))
        (Post-bind env (λ r _. (run env h sent).0 ≡ r) Steps h sent
          (λ res. enter_as make_user res (get res "user")) refl
          (λ res h' p. enter-Steps make_user res (get res "user") h' p) (λ _ _ _. tt))
        (kept demo) (λ e h' _. moved demo (recover e) h' (recovered e))
    where
      kept : (d : Bool) (o : Outcome) (h' : List Call) → Steps (ok o) h' → Signed d (ok o) h'
      kept d (entered token user) h' p = inl p
      kept d (refused message) h' p = tt

      moved : (d : Bool) (o : Outcome) (h' : List Call) → Signed d (ok o) h → Signed d (ok o) h'
      moved d (entered token user) h' p = p
      moved d (refused message) h' p = tt

-- The form of the login never throws, and it leads to the dashboard only with the token of a reply
-- of the authentication service, or, whatever that service has answered, for an address that
-- contains `admin`, `demo` or `test`.
pub submit_login-Signed :
    (env : ApiEnv) (h : List Call) (lower : String → String) (text_of : Value → String)
    (s : Session) (email password : String)
    → Post env
        (Signed env h (login text_of s (credentials email password)) (is_demo lower email))
        h
        (submit_login lower text_of s email password)
unfolding submit_login
submit_login-Signed env h lower text_of s email password =
    let sent : Api Value = login text_of s (credentials email password) in
    elim (Bool-cases ((email == "") || (password == ""))) [
      | inl missing ↦ rw (missing, submit_login) tt
      | inr given ↦
          rw (given, submit_login)
            (attempt-Signed env h sent login_user (login_failed lower email) (is_demo lower email)
              (elim (Bool-cases (is_demo lower email)) [
                | inl demo ↦ λ e. rw demo (inr refl)
                | inr other ↦ λ e. rw other tt
              ]))
    ]
