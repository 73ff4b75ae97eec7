-- ===== src/Auth/Email/Transaction.antt =====
-- Registration is one transaction (services/auth-service/src/providers/email.ts).
use ai_gcm.Base.{ℕ, ◌+◌, ◌≡◌, ◌∙◌, List, [], ◌∷◌, ◌==◌, if◌then◌else◌, arith, refl}
use ai_gcm.Js.{Value, get}
use ai_gcm.Effect.{
  Error, Result, ok, err, ok-ne-err, done, throw, await, ◌>>=◌, ◌>>◌, catch, finally,
}
use ai_gcm.Effect.Run.{run}
use ai_gcm.Effect.Post.{Post, Post-await, recover, run-catch, afterwards, run-finally}
use ai_gcm.Auth.Calls.{Call, Answer, connect, release, client_query, bcrypt_hash, Auth, AuthEnv}
use ai_gcm.Auth.Email.{
  UserRecord, register_steps, rollback, register_user, first_row, insert_organization, insert_user,
  insert_credentials, bcrypt_rounds,
}

abbrev answered : {A : Type 0} → Result A → ℕ
answered (ok a) = 1
answered (err e) = 0

-- The number of COMMITs in a history that the database has answered.
abbrev pub commits : AuthEnv → List Call → ℕ
commits env [] = 0
commits env (client_query sql ps ∷ h) =
    if sql == "COMMIT"
    then answered (env h (client_query sql ps)) + commits env h
    else commits env h
commits env (_ ∷ h) = commits env h

abbrev pub commits_of : Result UserRecord → ℕ
commits_of (ok u) = 1
commits_of (err e) = 0

module _ (env : AuthEnv) (n : ℕ) where
  abbrev Counted : Result UserRecord → List Call → Type 0
  Counted r h = commits env h ≡ commits_of r + n

  module _ (h : List Call) (start : commits env h ≡ n) where
    quiet :
        (c : Call) (f : Answer c → Auth UserRecord)
        → commits env (c ∷ h) ≡ commits env h
        → ((a : Answer c) → commits env (c ∷ h) ≡ n → Post env Counted (c ∷ h) (f a))
        → Post env Counted h (await c >>= f)
    quiet c f same rest =
        Post-await env Counted h c f (λ a _. rest a (same ∙ start)) (λ e _. omega (arith, same))

    row_read :
        (rows : List Value) (f : Value → Auth UserRecord)
        → ((row : Value) → Post env Counted h (f row))
        → Post env Counted h (first_row rows >>= f)
    row_read [] f rest = omega arith
    row_read (row ∷ rows) f rest = rest row

    commit_last : (u : UserRecord) → Post env Counted h (await (client_query "COMMIT" []) >> done u)
    commit_last u =
        Post-await env Counted h (client_query "COMMIT" []) (λ _. done u)
          (λ a p. rw p (omega arith)) (λ e p. rw p (omega arith))

  steps-Counted :
      (h : List Call) (d : Value) → commits env h ≡ n → Post env Counted h (register_steps d)
  unfolding register_steps
  steps-Counted h d start = quiet h start (client_query "BEGIN" []) _ refl λ _ s₁.
      quiet _ s₁ (insert_organization d) _ refl λ orgs s₂. row_read _ s₂ orgs _ λ org.
        quiet _ s₂ (bcrypt_hash (get d "password") bcrypt_rounds) _ refl λ hash s₃.
          quiet _ s₃ (insert_user (get org "id") d) _ refl λ users s₄. row_read _ s₄ users _ λ user.
            quiet _ s₄ (insert_credentials (get user "id") hash) _ refl λ _ s₅. commit_last _ s₅ _

  rollback-Counted :
      (h : List Call) (e : Error) → commits env h ≡ n → Post env Counted h (rollback e)
  unfolding rollback
  rollback-Counted h e start =
      quiet h start (client_query "ROLLBACK" []) _ refl (λ _ s. omega arith)

  recover-Counted :
      (r : Result UserRecord) (h : List Call)
      → Counted r h
      → Counted (recover env rollback (r, h)).0 (recover env rollback (r, h)).1
  recover-Counted (ok u) h p = p
  recover-Counted (err e) h p = rollback-Counted h e (omega arith)

  release-Counted :
      ((h : List Call) → env h release ≡ ok tt)
      → (r : Result UserRecord) (h : List Call) → Counted r h
      → Counted (afterwards env (await release) (r, h)).0 (afterwards env (await release) (r, h)).1
  release-Counted released (ok u) h p =
      Post-await env Counted h release (λ _. done u) (λ _ _. p)
        (λ e failed. ok-ne-err (released h) failed)
  release-Counted released (err e) h p =
      Post-await env Counted h release (λ _. throw e) (λ _ _. p)
        (λ e' failed. ok-ne-err (released h) failed)

-- Whatever fails on the way, a registration returns a user exactly when one COMMIT of it was
-- answered, and throws exactly when none was, provided that giving the client back to the pool
-- does not throw.
pub register_atomic :
    (env : AuthEnv) (h : List Call) (d : Value)
    → ((h' : List Call) → env h' release ≡ ok tt)
    → commits env (run env h (register_user d)).1
      ≡ commits_of (run env h (register_user d)).0 + commits env h
unfolding register_user
register_atomic env h d released =
    let n : ℕ = commits env h in
    Post-await env (Counted env n) h connect
      (λ _. finally (catch (register_steps d) rollback) (await release))
      (λ _ _.
        let h' : List Call = connect ∷ h in
        rw (run-finally env h' (catch (register_steps d) rollback) (await release)) (
          release-Counted env n released _ _ (
            rw (run-catch env h' (register_steps d) rollback)
              (recover-Counted env n _ _ (steps-Counted env n h' d refl)))))
      (λ e _. omega arith)
