-- ===== src/Effect/Keeps.antt =====
-- Programs that keep a property of the history, whatever they return or throw.
use ai_gcm.Base.{Bool, true, false, List, ◌∷◌, if◌then◌else◌}
use ai_gcm.Effect.{
  Error, Result, ok, err, Prog, done, throw, ◌>>=◌, returned, await, catch, finally,
}
use ai_gcm.Effect.Run.{Env, run, continue, run-bind}
use ai_gcm.Effect.Post.{recover, run-catch, afterwards, run-finally}

pub record Keeps {C : Type 0} {R : C → Type 0} {A : Type 0} (env : Env C R) (P : List C → Type 0)
    (m : Prog C R A) : Type 0 where
  pub at : (h : List C) → P h → P (run env h m).1

module _ {C : Type 0} {R : C → Type 0} {env : Env C R} {P : List C → Type 0} {A : Type 0} where
  pub Keeps-done : (a : A) → Keeps env P (done a)
  Keeps-done a = record { at = λ h p. p }

  pub Keeps-throw : (e : Error) → Keeps {A = A} env P (throw e)
  Keeps-throw e = record { at = λ h p. p }

  pub Keeps-returned : (r : Result A) → Keeps env P (returned r)
  Keeps-returned (ok a) = Keeps-done a
  Keeps-returned (err e) = Keeps-throw e

  pub Keeps-if :
      (b : Bool) (m n : Prog C R A)
      → Keeps env P m
      → Keeps env P n
      → Keeps env P (if b then m else n)
  Keeps-if true m n km kn = km
  Keeps-if false m n km kn = kn

module _ {C : Type 0} {R : C → Type 0} {env : Env C R} {P : List C → Type 0} where
  pub Keeps-await : (c : C) → ((h : List C) → P h → P (c ∷ h)) → Keeps env P (await c)
  Keeps-await c step = record {
    at = λ h p.
        let kept : Keeps env P (returned (env h c)) = Keeps-returned (env h c) in
        kept.at (c ∷ h) (step h p);
  }

module _ {C : Type 0} {R : C → Type 0} {env : Env C R} {P : List C → Type 0} {A B : Type 0} where
  Keeps-continue :
      (f : A → Prog C R B)
      → ((a : A) → Keeps env P (f a))
      → (r : Result A) (h : List C) → P h
      → P (continue env f (r, h)).1
  Keeps-continue f kf (ok a) h p = (kf a).at h p
  Keeps-continue f kf (err e) h p = p

  pub Keeps-bind :
      (m : Prog C R A) (f : A → Prog C R B)
      → Keeps env P m
      → ((a : A) → Keeps env P (f a))
      → Keeps env P (m >>= f)
  Keeps-bind m f km kf = record {
    at = λ h p. let (r, h') = run env h m in rw run-bind (Keeps-continue f kf r h' (km.at h p));
  }

module _ {C : Type 0} {R : C → Type 0} {env : Env C R} {P : List C → Type 0} {A : Type 0} where
  Keeps-recover :
      (k : Error → Prog C R A)
      → ((e : Error) → Keeps env P (k e))
      → (r : Result A) (h : List C) → P h
      → P (recover env k (r, h)).1
  Keeps-recover k kk (ok a) h p = p
  Keeps-recover k kk (err e) h p = (kk e).at h p

  pub Keeps-catch :
      (m : Prog C R A) (k : Error → Prog C R A)
      → Keeps env P m
      → ((e : Error) → Keeps env P (k e))
      → Keeps env P (catch m k)
  Keeps-catch m k km kk = record {
    at = λ h p. let (r, h') = run env h m in rw run-catch (Keeps-recover k kk r h' (km.at h p));
  }

  Keeps-afterwards :
      (n : Prog C R (Unit {0}))
      → Keeps env P n
      → (r : Result A) (h : List C) → P h
      → P (afterwards env n (r, h)).1
  Keeps-afterwards n kn (ok a) h p = (Keeps-bind n (λ _. done a) kn (λ _. Keeps-done a)).at h p
  Keeps-afterwards n kn (err e) h p = (Keeps-bind n (λ _. throw e) kn (λ _. Keeps-throw e)).at h p

  pub Keeps-finally :
      (m : Prog C R A) (n : Prog C R (Unit {0}))
      → Keeps env P m
      → Keeps env P n
      → Keeps env P (finally m n)
  Keeps-finally m n km kn = record {
    at =
        λ h p. let (r, h') = run env h m in rw run-finally (Keeps-afterwards n kn r h' (km.at h p));
  }

pub ruleset keeps_rules = (Keeps-done, Keeps-throw, Keeps-if, Keeps-await, Keeps-bind)
