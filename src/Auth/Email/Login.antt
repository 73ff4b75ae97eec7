-- ===== src/Auth/Email/Login.antt =====
-- What a login has checked (services/auth-service/src/providers/email.ts).
use ai_gcm.Base.{◌≡◌, refl, true, false, none, some, List, [], ◌∷◌, Option}
use ai_gcm.Js.{Value, get}
use ai_gcm.Effect.{Result, ok, err, done}
use ai_gcm.Effect.Run.{run}
use ai_gcm.Effect.Post.{Post, Post-await}
use ai_gcm.Auth.Calls.{Call, bcrypt_compare, AuthEnv}
use ai_gcm.Auth.Email.{
  UserRecord, user_of, select_credentials, touch_login, check_password, validate_credentials,
}

-- The first row that the database gives for an address, whose hash bcrypt accepts.
pub record Checked (env : AuthEnv) (h : List Call) (address password : Value) (u : UserRecord)
    : Type 0 where
  pub row : Value
  pub rows : List Value
  pub selected : env h (select_credentials address) ≡ ok (row ∷ rows)
  pub compared :
      env (select_credentials address ∷ h) (bcrypt_compare password (get row "password_hash"))
      ≡ ok true
  pub user : u ≡ user_of row

-- What a null result means.
abbrev Refused : AuthEnv → List Call → (address password : Value) → List Value → Type 0
Refused env h address password [] = Unit
Refused env h address password (row ∷ rows) =
    env (select_credentials address ∷ h) (bcrypt_compare password (get row "password_hash"))
    ≡ ok false

abbrev pub Login :
    AuthEnv
    → List Call
    → (address password : Value) → Result (Option UserRecord)
    → List Call
    → Type 0
Login env h address password (ok (some u)) h' = Checked env h address password u
Login env h address password (ok none) h' =
    (rows : List Value) × (env h (select_credentials address) ≡ ok rows)
    × Refused env h address password rows
Login env h address password (err e) h' = Unit

-- A user is returned only as the first row found for the address, when bcrypt has accepted the
-- password against that row's hash; null is returned only when there is no row, or bcrypt has
-- refused the password against the first row's hash.
pub validate-Login :
    (env : AuthEnv) (h : List Call) (address password : Value)
    → Login env h address password
        (run env h (validate_credentials address password)).0
        (run env h (validate_credentials address password)).1
unfolding validate_credentials
validate-Login env h address password =
    Post-await env (Login env h address password) h (select_credentials address)
      (check_password password)
      (elim [ [] ↦ λ p. ([], p, tt) | row ∷ rows ↦ λ p. compared row rows p ]) (λ e _. tt)
  where
    h₁ : List Call
    h₁ = select_credentials address ∷ h

    compared :
        (row : Value) (rows : List Value)
        → env h (select_credentials address) ≡ ok (row ∷ rows)
        → Post env (Login env h address password) h₁ (check_password password (row ∷ rows))
    compared row rows p =
        Post-await env (Login env h address password) h₁
          (bcrypt_compare password (get row "password_hash")) _
          (elim [
            | true ↦ λ q.
                Post-await env (Login env h address password) _ (touch_login (get row "id"))
                  (λ _. done (some (user_of row)))
                  (λ _ _. record {
                    row = row;
                    rows = rows;
                    selected = p;
                    compared = q;
                    user = refl;
                  })
                  (λ _ _. tt)
            | false ↦ λ q. (row ∷ rows, p, q)
          ])
          (λ e _. tt)
