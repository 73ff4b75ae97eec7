-- ===== src/Auth/Email/Release.antt =====
-- How a registration ends (services/auth-service/src/providers/email.ts).
use ai_gcm.Base.{◌≡◌, ◌⊎◌, refl, ap, inl, inr, List, [], ◌∷◌}
use ai_gcm.Js.{Value, get}
use ai_gcm.Effect.{Result, ok, err, ok-ne-err, done, throw, await, ◌>>=◌, catch, finally}
use ai_gcm.Effect.Run.{run}
use ai_gcm.Effect.Post.{Post, Post-await, recover, run-catch, afterwards, run-finally}
use ai_gcm.Auth.Calls.{Call, Answer, connect, release, client_query, bcrypt_hash, Auth, AuthEnv}
use ai_gcm.Auth.Email.{
  UserRecord, register_steps, rollback, register_user, first_row, insert_organization, insert_user,
  insert_credentials, bcrypt_rounds,
}

-- The calls that end a registration.
abbrev pub Ended : List Call → Result UserRecord → List Call → Type 0
Ended h (ok u) h' = (before : List Call) × (h' ≡ release ∷ client_query "COMMIT" [] ∷ before)
Ended h (err e) h' =
    (h' ≡ connect ∷ h)
    ⊎ ((before : List Call) × (h' ≡ release ∷ client_query "ROLLBACK" [] ∷ before))

-- The last call of the steps that return a user.
abbrev Committing : Result UserRecord → List Call → Type 0
Committing (ok u) h = (before : List Call) × (h ≡ client_query "COMMIT" [] ∷ before)
Committing (err e) h = Unit

-- The same, once a failure has been rolled back.
abbrev Settled : Result UserRecord → List Call → Type 0
Settled (ok u) h = (before : List Call) × (h ≡ client_query "COMMIT" [] ∷ before)
Settled (err e) h = (before : List Call) × (h ≡ client_query "ROLLBACK" [] ∷ before)

module _ (env : AuthEnv) where
  stepped :
      (h : List Call) (c : Call) (f : Answer c → Auth UserRecord)
      → ((a : Answer c) → Post env Committing (c ∷ h) (f a))
      → Post env Committing h (await c >>= f)
  stepped h c f rest = Post-await env Committing h c f (λ a _. rest a) (λ e _. tt)

  row_read :
      (h : List Call) (rows : List Value) (f : Value → Auth UserRecord)
      → ((row : Value) → Post env Committing h (f row))
      → Post env Committing h (first_row rows >>= f)
  row_read h [] f rest = tt
  row_read h (row ∷ rows) f rest = rest row

  steps-Committing : (h : List Call) (d : Value) → Post env Committing h (register_steps d)
  unfolding register_steps
  steps-Committing h d = stepped h (client_query "BEGIN" []) _ λ _.
      stepped _ (insert_organization d) _ λ orgs. row_read _ orgs _ λ org.
        stepped _ (bcrypt_hash (get d "password") bcrypt_rounds) _ λ hash.
          stepped _ (insert_user (get org "id") d) _ λ users. row_read _ users _ λ user.
            stepped _ (insert_credentials (get user "id") hash) _
              λ _. stepped _ (client_query "COMMIT" []) _ (λ _. (_, refl))

  recover-Settled :
      (r : Result UserRecord) (h : List Call)
      → Committing r h
      → Settled (recover env rollback (r, h)).0 (recover env rollback (r, h)).1
  unfolding rollback
  recover-Settled (ok u) h p = p
  recover-Settled (err e) h p =
      Post-await env Settled h (client_query "ROLLBACK" []) (λ _. throw e) (λ _ _. (h, refl))
        (λ _ _. (h, refl))

  module _ (h₀ : List Call) (released : (h : List Call) → env h release ≡ ok tt) where
    release-Ended :
        (r : Result UserRecord) (h : List Call)
        → Settled r h
        → Ended h₀
            (afterwards env (await release) (r, h)).0
            (afterwards env (await release) (r, h)).1
    release-Ended (ok u) h (before, p) =
        Post-await env (Ended h₀) h release (λ _. done u) (λ _ _. (before, ap (λ l. release ∷ l) p))
          (λ e failed. ok-ne-err (released h) failed)
    release-Ended (err e) h (before, p) =
        Post-await env (Ended h₀) h release (λ _. throw e)
          (λ _ _. inr (before, ap (λ l. release ∷ l) p))
          (λ e' failed. ok-ne-err (released h) failed)

-- A registration that returns a user ends by COMMIT and the release of its client; one that
-- throws ends by ROLLBACK and the release, unless no client was obtained; provided that giving
-- the client back to the pool does not throw.
pub register-Ended :
    (env : AuthEnv) (h : List Call) (d : Value)
    → ((h' : List Call) → env h' release ≡ ok tt)
    → Ended h (run env h (register_user d)).0 (run env h (register_user d)).1
unfolding register_user
register-Ended env h d released =
    Post-await env (Ended h) h connect
      (λ _. finally (catch (register_steps d) rollback) (await release))
      (λ _ _.
        let h' : List Call = connect ∷ h in
        rw (run-finally env h' (catch (register_steps d) rollback) (await release)) (
          release-Ended env h released _ _ (
            rw (run-catch env h' (register_steps d) rollback)
              (recover-Settled env _ _ (steps-Committing env h' d)))))
      (λ e _. inl refl)
