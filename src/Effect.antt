-- ===== src/Effect.antt =====
-- Asynchronous code as a tree of awaited calls. `C` is the type of the calls that leave the
-- program (database, cache, network, cryptography), `R c` what the call `c` resolves to.
pub mod Run
pub mod Keeps
pub mod Post
pub mod Same
pub mod Turns
use ai_gcm.Base.{String, Option, none, ◌≡◌, refl, ◌⊎◌, inl, inr}

-- A thrown value: its `code` and `message` properties.
pub record Error : Type 0 where
  pub code : Option String
  pub message : String

pub data Result (A : Type 0) : Type 0 where
  ok : A → Result A
  err : Error → Result A

-- `throw new Error(message)`.
abbrev pub plain : String → Error
plain message = record { code = none; message = message }

pub data Prog (C : Type 0) (R : C → Type 0) (A : Type 0) : Type 0 where
  done : A → Prog C R A
  throw : Error → Prog C R A
  call : (c : C) → (Result (R c) → Prog C R A) → Prog C R A

module _ {C : Type 0} {R : C → Type 0} where
  infixl 5 ◌>>=◌ ◌>>◌
  abbrev pub ◌>>=◌ : {A B : Type 0} → Prog C R A → (A → Prog C R B) → Prog C R B
  done a >>= f = f a
  throw e >>= f = throw e
  call c k >>= f = call c (λ r. k r >>= f)

  abbrev pub ◌>>◌ : {A B : Type 0} → Prog C R A → Prog C R B → Prog C R B
  m >> n = m >>= λ _. n

  -- `await` of a call: a rejected promise throws.
  abbrev pub returned : {A : Type 0} → Result A → Prog C R A
  returned (ok a) = done a
  returned (err e) = throw e

  abbrev pub await : (c : C) → Prog C R (R c)
  await c = call c returned

  -- `try { m } catch (e) { h(e) }`.
  abbrev pub catch : {A : Type 0} → Prog C R A → (Error → Prog C R A) → Prog C R A
  catch (done a) h = done a
  catch (throw e) h = h e
  catch (call c k) h = call c (λ r. catch (k r) h)

  -- `try { m } finally { n }`.
  abbrev pub finally : {A : Type 0} → Prog C R A → Prog C R (Unit {0}) → Prog C R A
  finally (done a) n = n >>= λ _. done a
  finally (throw e) n = n >>= λ _. throw e
  finally (call c k) n = call c (λ r. finally (k r) n)

pub Result-cases :
    {A : Type 0} (r : Result A) → ((a : A) × (r ≡ ok a)) ⊎ ((e : Error) × (r ≡ err e))
Result-cases (ok a) = inl (a, refl)
Result-cases (err e) = inr (e, refl)

pub ok-ne-err : {A B : Type 0} {r : Result A} {a : A} {e : Error} → r ≡ ok a → r ≡ err e → B
ok-ne-err p q = cc

pub ok-injective : {A : Type 0} {a b : A} → ok a ≡ ok b → a ≡ b
ok-injective p = cc
