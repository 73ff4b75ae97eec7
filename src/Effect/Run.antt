-- ===== src/Effect/Run.antt =====
-- Running a program against an environment that may answer each call by anything that depends on
-- what has happened so far. A history lists the calls made, the latest first.
use ai_gcm.Base.{List, ◌∷◌, ◌≡◌, refl, ap}
use ai_gcm.Effect.{Result, ok, err, Prog, done, throw, call, ◌>>=◌, returned, await}

abbrev pub Env : (C : Type 0) → (C → Type 0) → Type 0
Env C R = List C → (c : C) → Result (R c)

-- The outcome, and the history after it.
abbrev pub run :
    {C : Type 0} {R : C → Type 0} {A : Type 0} → Env C R → List C → Prog C R A → Result A × List C
run env h (done a) = (ok a, h)
run env h (throw e) = (err e, h)
run env h (call c k) = run env (c ∷ h) (k (env h c))

module _ {C : Type 0} {R : C → Type 0} {A B : Type 0} where
  abbrev pub continue : Env C R → (A → Prog C R B) → Result A × List C → Result B × List C
  continue env f (ok a, h) = run env h (f a)
  continue env f (err e, h) = (err e, h)

  pub run-bind :
      (env : Env C R) (h : List C) (m : Prog C R A) (f : A → Prog C R B)
      → run env h (m >>= f) ≡ continue env f (run env h m)
  run-bind env h (done a) f = refl
  run-bind env h (throw e) f = refl
  run-bind env h (call c k) f = run-bind env (c ∷ h) (k (env h c)) f

  -- What follows an awaited call goes on from its answer.
  pub run-returned :
      (env : Env C R) (h : List C) (r : Result A) (f : A → Prog C R B)
      → run env h (returned r >>= f) ≡ continue env f (r, h)
  run-returned env h (ok a) f = refl
  run-returned env h (err e) f = refl

module _ {C : Type 0} {R : C → Type 0} where
  -- An awaited call that is answered.
  pub run-await :
      (env : Env C R) (h : List C) (c : C) {a : R c}
      → env h c ≡ ok a
      → run env h (await c) ≡ (ok a, c ∷ h)
  run-await env h c known = ap (λ r. run env (c ∷ h) (returned r)) known

  returned-result :
      {A : Type 0} (env : Env C R) (h : List C) (r : Result A) → (run env h (returned r)).0 ≡ r
  returned-result env h (ok a) = refl
  returned-result env h (err e) = refl

  -- The outcome of an awaited call is its answer.
  pub await-answer : (env : Env C R) (h : List C) (c : C) → (run env h (await c)).0 ≡ env h c
  await-answer env h c = returned-result env (c ∷ h) (env h c)
