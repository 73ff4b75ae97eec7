-- ===== src/Effect/Post.antt =====
-- What holds of the outcome and the history when a program ends: one rule for each way to build
-- a program.
use ai_gcm.Base.{ap, ◌∙◌, List, ◌∷◌, ◌≡◌, refl, inl, inr}
use ai_gcm.Effect.{
  Error, Result, ok, err, Result-cases, Prog, done, throw, call, ◌>>=◌, await, catch, finally,
}
use ai_gcm.Effect.Run.{Env, run, continue, run-bind, run-returned}

module _ {C : Type 0} {R : C → Type 0} {A : Type 0} where
  abbrev pub Post : Env C R → (Result A → List C → Type 0) → List C → Prog C R A → Type 0
  Post env Q h m = Q (run env h m).0 (run env h m).1

  abbrev pub recover : Env C R → (Error → Prog C R A) → Result A × List C → Result A × List C
  recover env k (ok a, h) = (ok a, h)
  recover env k (err e, h) = run env h (k e)

  pub run-catch :
      (env : Env C R) (h : List C) (m : Prog C R A) (k : Error → Prog C R A)
      → run env h (catch m k) ≡ recover env k (run env h m)
  run-catch env h (done a) k = refl
  run-catch env h (throw e) k = refl
  run-catch env h (call c f) k = run-catch env (c ∷ h) (f (env h c)) k

  abbrev pub afterwards : Env C R → Prog C R (Unit {0}) → Result A × List C → Result A × List C
  afterwards env n (ok a, h) = run env h (n >>= λ _. done a)
  afterwards env n (err e, h) = run env h (n >>= λ _. throw e)

  pub run-finally :
      (env : Env C R) (h : List C) (m : Prog C R A) (n : Prog C R (Unit {0}))
      → run env h (finally m n) ≡ afterwards env n (run env h m)
  run-finally env h (done a) n = refl
  run-finally env h (throw e) n = refl
  run-finally env h (call c f) n = run-finally env (c ∷ h) (f (env h c)) n

  -- A `try` block whose first call is answered goes on from the answer.
  pub run-catch-await :
      (env : Env C R) (h : List C) (c : C) {a : R c} (f : R c → Prog C R A) (k : Error → Prog C R A)
      → env h c ≡ ok a
      → run env h (catch (await c >>= f) k) ≡ recover env k (run env (c ∷ h) (f a))
  run-catch-await env h c f k known =
      run-catch env h (await c >>= f) k
      ∙ ap (recover env k)
          (run-returned env (c ∷ h) (env h c) f ∙ ap (λ r. continue env f (r, c ∷ h)) known)

module _ {C : Type 0} {R : C → Type 0} {A : Type 0} (env : Env C R)
    (Q : Result A → List C → Type 0) where
  pub Post-await :
      (h : List C) (c : C) (f : R c → Prog C R A)
      → ((a : R c) → env h c ≡ ok a → Post env Q (c ∷ h) (f a))
      → ((e : Error) → env h c ≡ err e → Q (err e) (c ∷ h))
      → Post env Q h (await c >>= f)
  Post-await h c f answered failed =
      rw (run-returned env (c ∷ h) (env h c) f) (elim (Result-cases (env h c)) [
        | inl (a, p) ↦ rw p (answered a p)
        | inr (e, p) ↦ rw p (failed e p)
      ])

module _ {C : Type 0} {R : C → Type 0} {A B : Type 0} (env : Env C R)
    (P : Result A → List C → Type 0) (Q : Result B → List C → Type 0) where
  -- What the first part establishes is a premise of the second.
  Post-continue :
      (f : A → Prog C R B)
      → ((a : A) (h : List C) → P (ok a) h → Post env Q h (f a))
      → ((e : Error) (h : List C) → P (err e) h → Q (err e) h)
      → (r : Result A) (h : List C) → P r h
      → Q (continue env f (r, h)).0 (continue env f (r, h)).1
  Post-continue f rest failed (ok a) h p = rest a h p
  Post-continue f rest failed (err e) h p = failed e h p

  pub Post-bind :
      (h : List C) (m : Prog C R A) (f : A → Prog C R B)
      → Post env P h m
      → ((a : A) (h' : List C) → P (ok a) h' → Post env Q h' (f a))
      → ((e : Error) (h' : List C) → P (err e) h' → Q (err e) h')
      → Post env Q h (m >>= f)
  Post-bind h m f p rest failed = rw (run-bind env h m f) (Post-continue f rest failed _ _ p)

module _ {C : Type 0} {R : C → Type 0} {A : Type 0} (env : Env C R)
    (P Q : Result A → List C → Type 0) where
  Post-recover :
      (k : Error → Prog C R A)
      → ((a : A) (h : List C) → P (ok a) h → Q (ok a) h)
      → ((e : Error) (h : List C) → P (err e) h → Post env Q h (k e))
      → (r : Result A) (h : List C) → P r h
      → Q (recover env k (r, h)).0 (recover env k (r, h)).1
  Post-recover k kept handled (ok a) h p = kept a h p
  Post-recover k kept handled (err e) h p = handled e h p

  pub Post-catch :
      (h : List C) (m : Prog C R A) (k : Error → Prog C R A)
      → Post env P h m
      → ((a : A) (h' : List C) → P (ok a) h' → Q (ok a) h')
      → ((e : Error) (h' : List C) → P (err e) h' → Post env Q h' (k e))
      → Post env Q h (catch m k)
  Post-catch h m k p kept handled = rw (run-catch env h m k) (Post-recover k kept handled _ _ p)

-- No claim on the outcome.
abbrev pub Anything : {C A : Type 0} → Result A → List C → Type 0
Anything r h = Unit
