-- ===== src/Auth/Refresh/Store.antt =====
-- What Redis may hold, read off a history of calls, and what is relied upon of Redis and of the
-- generator of session ids.
use ai_gcm.Base.{
  String, ◌≡◌, ◌≢◌, ◌⊎◌, inl, inr, Option, none, some, List, [], ◌∷◌, ◌==◌, eq_iff, if◌then◌else◌,
  false,
}
use ai_gcm.Effect.{Error, Result, ok, err}
use ai_gcm.Js.{JsonText}
use ai_gcm.Auth.Calls.{Call, connect, uuid, redis_set, redis_get, redis_del, AuthEnv}
use ai_gcm.Auth.Refresh.{session_key}

-- What the last write or deletion of a key left there.
abbrev pub latest : String → List Call → Option JsonText
latest k [] = none
latest k (redis_set j t n ∷ h) = if j == k then some t else latest k h
latest k (redis_del j ∷ h) = if j == k then none else latest k h
latest k (_ ∷ h) = latest k h

pub differs : (j k : String) → (j == k) ≡ false → j ≢ k
differs j k apart e = cc ((eq_iff j k).1 e)

-- The call was answered by an error: whether it took effect is not known.
abbrev pub Failed : {A : Type 0} → Result A → Type 0
Failed r = (e : Error) × (r ≡ err e)

-- The key may hold the text: it was written there, and no later write or deletion of the key is
-- known to have taken effect.
abbrev pub MayHold : AuthEnv → String → JsonText → List Call → Type 0
MayHold env k t [] = ⊥
MayHold env k t (redis_set j u n ∷ h) =
    ((j ≡ k) × (u ≡ t)) ⊎ (((j ≢ k) ⊎ Failed (env h (redis_set j u n))) × MayHold env k t h)
MayHold env k t (redis_del j ∷ h) = ((j ≢ k) ⊎ Failed (env h (redis_del j))) × MayHold env k t h
MayHold env k t (_ ∷ h) = MayHold env k t h

-- The key was written at some time.
abbrev pub WasSet : String → List Call → Type 0
WasSet k [] = ⊥
WasSet k (redis_set j u n ∷ h) = (j ≡ k) ⊎ WasSet k h
WasSet k (_ ∷ h) = WasSet k h

-- GET returns what SET has written and neither SET nor DEL has replaced; keys may expire.
pub record IsRedis (env : AuthEnv) : Type 0 where
  pub get_held :
      (h : List Call) (k : String) (t : JsonText)
      → env h (redis_get k) ≡ ok (some t)
      → MayHold env k t h

-- uuid v4 does not give an id under which a session was stored before.
pub record HasFreshIds (env : AuthEnv) : Type 0 where
  pub fresh : (h : List Call) (id : String) → env h uuid ≡ ok id → WasSet (session_key id) h → ⊥

-- The key was written, and is known to hold nothing.
pub record Spent (env : AuthEnv) (k : String) (h : List Call) : Type 0 where
  pub was_set : WasSet k h
  pub gone : (t : JsonText) → MayHold env k t h → ⊥

abbrev pub Sets : String → Call → Type 0
Sets k (redis_set j t n) = j ≡ k
Sets k _ = ⊥

module _ (env : AuthEnv) (k : String) where
  pub MayHold-WasSet : (t : JsonText) (h : List Call) → MayHold env k t h → WasSet k h
  MayHold-WasSet t (redis_set j u n ∷ h) (inl p) = inl p.0
  MayHold-WasSet t (redis_set j u n ∷ h) (inr p) = inr (MayHold-WasSet t h p.1)
  MayHold-WasSet t (redis_del j ∷ h) p = MayHold-WasSet t h p.1
  MayHold-WasSet t [] p = elim p [ ]
  MayHold-WasSet t (_ ∷ h) p = MayHold-WasSet t h p

  -- A call that does not write the key leaves it spent.
  pub Spent-cons : (c : Call) (h : List Call) → (Sets k c → ⊥) → Spent env k h → Spent env k (c ∷ h)
  Spent-cons (redis_set j u n) h other sp = record {
    was_set = inr sp.was_set;
    gone = λ t. elim [ inl p ↦ other p.0 | inr p ↦ sp.gone t p.1 ];
  }
  Spent-cons (redis_del j) h other sp = record { was_set = sp.was_set; gone = λ t p. sp.gone t p.1 }
  Spent-cons connect h other sp = record { was_set = sp.was_set; gone = sp.gone }
  Spent-cons _ h other sp = record { was_set = sp.was_set; gone = sp.gone }
