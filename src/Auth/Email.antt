-- ===== src/Auth/Email.antt =====
-- Email and password accounts (services/auth-service/src/providers/email.ts). SQL texts have their
-- runs of white space written as one space.
pub mod Transaction
pub mod Release
pub mod Login
use ai_gcm.Base.{ℕ, String, Bool, true, false, Option, none, some, List, [], ◌∷◌, if◌then◌else◌}
use ai_gcm.Js.{Value, get, str}
use ai_gcm.Effect.{Error, Prog, done, throw, plain, await, catch, finally, ◌>>=◌, ◌>>◌}
use ai_gcm.Zod.{Check, min, max, regex, email, Schema, string, object, nil, prop}
use ai_gcm.Auth.Calls.{
  Call, connect, release, client_query, query, bcrypt_hash, bcrypt_compare, Auth,
}

abbrev pub bcrypt_rounds : ℕ
bcrypt_rounds = 12

abbrev pub register_schema : Schema
register_schema = object (
    prop "org_name" (string (min 2 ∷ max 255 ∷ [])) (
      prop "org_slug" (string (min 2 ∷ max 100 ∷ regex "^[a-z0-9-]+$" ∷ [])) (
        prop "email" (string (email ∷ [])) (
          prop "name" (string (min 1 ∷ max 255 ∷ []))
            (prop "password" (string (min 8 ∷ max 128 ∷ [])) nil)))))

abbrev pub login_schema : Schema
login_schema =
    object (prop "email" (string (email ∷ [])) (prop "password" (string (min 1 ∷ [])) nil))

pub record UserRecord : Type 0 where
  pub id : Value
  pub org_id : Value
  pub team_id : Value
  pub email : Value
  pub name : Value
  pub role : Value
  pub is_active : Value

-- The columns of a row that make a user record.
abbrev pub user_of : Value → UserRecord
user_of row = record {
  id = get row "id";
  org_id = get row "org_id";
  team_id = get row "team_id";
  email = get row "email";
  name = get row "name";
  role = get row "role";
  is_active = get row "is_active";
}

-- `rows[0]`, whose properties are read: without a row the read throws.
abbrev pub first_row : List Value → Auth Value
first_row [] = throw (plain "Cannot read properties of undefined")
first_row (row ∷ rows) = done row

abbrev pub insert_organization : Value → Call
insert_organization d =
    client_query
      "INSERT INTO organizations (name, slug, billing_email, plan) VALUES ($1, $2, $3, 'free') RETURNING id"
      (get d "org_name" ∷ get d "org_slug" ∷ get d "email" ∷ [])

abbrev pub insert_user : Value → Value → Call
insert_user org_id d =
    client_query
      "INSERT INTO users (org_id, email, name, role) VALUES ($1, $2, $3, 'super_admin') RETURNING id, org_id, team_id, email, name, role, is_active"
      (org_id ∷ get d "email" ∷ get d "name" ∷ [])

abbrev pub insert_credentials : Value → String → Call
insert_credentials user_id hash =
    client_query
      "INSERT INTO user_credentials (user_id, password_hash) VALUES ($1, $2) ON CONFLICT (user_id) DO UPDATE SET password_hash = $2, updated_at = NOW()"
      (user_id ∷ str hash ∷ [])

-- The body of the `try` block.
pub register_steps : Value → Auth UserRecord
register_steps d = do
  await (client_query "BEGIN" [])
  orgs ← await (insert_organization d)
  org ← first_row orgs
  hash ← await (bcrypt_hash (get d "password") bcrypt_rounds)
  users ← await (insert_user (get org "id") d)
  user ← first_row users
  await (insert_credentials (get user "id") hash)
  await (client_query "COMMIT" [])
  done (user_of user)

pub rollback : Error → Auth UserRecord
rollback e = do await (client_query "ROLLBACK" []); throw e

unfoldable pub register_user : Value → Auth UserRecord
unfolding register_steps rollback
register_user d = do await connect; finally (catch (register_steps d) rollback) (await release)

abbrev pub select_credentials : Value → Call
select_credentials address =
    query
      "SELECT u.id, u.org_id, u.team_id, u.email, u.name, u.role, u.is_active, uc.password_hash FROM users u JOIN user_credentials uc ON uc.user_id = u.id WHERE u.email = $1 AND u.is_active = TRUE"
      (address ∷ [])

abbrev pub touch_login : Value → Call
touch_login user_id = query "UPDATE users SET last_login_at = NOW() WHERE id = $1" (user_id ∷ [])

-- The checks on the first row found; a later row is never looked at.
pub check_password : Value → List Value → Auth (Option UserRecord)
check_password password [] = done none
check_password password (row ∷ rows) = do
  matched ← await (bcrypt_compare password (get row "password_hash"))
  if matched then (await (touch_login (get row "id")) >> done (some (user_of row))) else done none

unfoldable pub validate_credentials : (email password : Value) → Auth (Option UserRecord)
unfolding check_password
validate_credentials address password = do
  rows ← await (select_credentials address)
  check_password password rows
