-- ===== src/Effect/Same.antt =====
-- Programs that run alike from one history: one rule for each way to build a program.
use ai_gcm.Base.{List, ◌∷◌, ◌≡◌, refl, sym, ap, ◌∙◌, inl, inr}
use ai_gcm.Effect.{Error, Result, ok, err, Result-cases, Prog, ◌>>=◌, await, catch, finally}
use ai_gcm.Effect.Run.{Env, run, continue, run-bind, run-returned}
use ai_gcm.Effect.Post.{recover, run-catch, afterwards, run-finally}

module _ {C : Type 0} {R : C → Type 0} {A B : Type 0} (env : Env C R) (h : List C) where
  pub same-bind :
      (m m' : Prog C R A) (f : A → Prog C R B)
      → run env h m ≡ run env h m'
      → run env h (m >>= f) ≡ run env h (m' >>= f)
  same-bind m m' f e = run-bind env h m f ∙ (ap (continue env f) e ∙ sym (run-bind env h m' f))

  same-outcome :
      (f g : A → Prog C R B) (r : Result A) (h' : List C)
      → ((a : A) → r ≡ ok a → run env h' (f a) ≡ run env h' (g a))
      → continue env f (r, h') ≡ continue env g (r, h')
  same-outcome f g (ok a) h' e = e a refl
  same-outcome f g (err x) h' e = refl

  pub same-continue :
      (m : Prog C R A) (f g : A → Prog C R B)
      → ((a : A)
          → (run env h m).0 ≡ ok a
          → run env (run env h m).1 (f a) ≡ run env (run env h m).1 (g a))
      → run env h (m >>= f) ≡ run env h (m >>= g)
  same-continue m f g e =
      run-bind env h m f
      ∙ (same-outcome f g (run env h m).0 (run env h m).1 e ∙ sym (run-bind env h m g))

module _ {C : Type 0} {R : C → Type 0} {A : Type 0} (env : Env C R) (h : List C) where
  pub same-await :
      (c : C) (f g : R c → Prog C R A)
      → ((a : R c) → env h c ≡ ok a → run env (c ∷ h) (f a) ≡ run env (c ∷ h) (g a))
      → run env h (await c >>= f) ≡ run env h (await c >>= g)
  same-await c f g e =
      rw (run-returned env (c ∷ h) (env h c) f, run-returned env (c ∷ h) (env h c) g)
        (elim (Result-cases (env h c)) [
          | inl (a, known) ↦ rw known (e a known)
          | inr (x, failed) ↦ rw failed refl
        ])

  pub same-catch :
      (m m' : Prog C R A) (k : Error → Prog C R A)
      → run env h m ≡ run env h m'
      → run env h (catch m k) ≡ run env h (catch m' k)
  same-catch m m' k e = run-catch env h m k ∙ (ap (recover env k) e ∙ sym (run-catch env h m' k))

  pub same-finally :
      (m m' : Prog C R A) (n : Prog C R (Unit {0}))
      → run env h m ≡ run env h m'
      → run env h (finally m n) ≡ run env h (finally m' n)
  same-finally m m' n e =
      run-finally env h m n ∙ (ap (afterwards env n) e ∙ sym (run-finally env h m' n))
