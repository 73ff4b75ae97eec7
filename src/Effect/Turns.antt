-- ===== src/Effect/Turns.antt =====
-- Two programs that take turns on one history, by a schedule: `true` lets the first one make its
-- next call, and the answer is that of the environment after all calls so far.
use ai_gcm.Base.{Bool, true, false, List, [], ◌∷◌, ◌≡◌, ap}
use ai_gcm.Effect.{Prog, done, throw, call}
use ai_gcm.Effect.Run.{Env}

module _ {C : Type 0} {R : C → Type 0} {A : Type 0} where
  -- What is left of a program after its next call, and the history then.
  abbrev pub turn : Env C R → List C → Prog C R A → Prog C R A × List C
  turn env h (done a) = (done a, h)
  turn env h (throw e) = (throw e, h)
  turn env h (call c k) = (k (env h c), c ∷ h)

  abbrev pub turns :
      Env C R → List C → List Bool → (m n : Prog C R A) → Prog C R A × Prog C R A × List C
  turns env h [] m n = (m, n, h)
  turns env h (true ∷ schedule) m n = let (m', h') = turn env h m in turns env h' schedule m' n
  turns env h (false ∷ schedule) m n = let (n', h') = turn env h n in turns env h' schedule m n'

  -- One turn of the schedule, for a program whose next call is known.
  pub first-turn :
      (env : Env C R) (h : List C) (m : Prog C R A) {h' : List C} {m' : Prog C R A}
      (schedule : List Bool) (n : Prog C R A)
      → turn env h m ≡ (m', h')
      → turns env h (true ∷ schedule) m n ≡ turns env h' schedule m' n
  first-turn env h m schedule n e = ap (λ x. turns env x.1 schedule x.0 n) e

  pub second-turn :
      (env : Env C R) (h : List C) (n : Prog C R A) {h' : List C} {n' : Prog C R A}
      (schedule : List Bool) (m : Prog C R A)
      → turn env h n ≡ (n', h')
      → turns env h (false ∷ schedule) m n ≡ turns env h' schedule m n'
  second-turn env h n schedule m e = ap (λ x. turns env x.1 schedule m x.0) e
