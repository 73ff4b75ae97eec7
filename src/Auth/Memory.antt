-- ===== src/Auth/Memory.antt =====
-- An installation in memory: every call succeeds, Redis is a map read off the history, a refresh
-- token is the name of its user, and the source of session ids is given.
use Prim.Native.String.{◌∷◌ as ◌:>◌}
use mathlib.Core.Option.{some-injective}
use ai_gcm.Js.Text.{Lacks, size, size-append}
use ai_gcm.Auth.Refresh.Refine.Represents.{IsWorking}
use ai_gcm.Base.{
  ℕ, zero, suc, ◌+◌, ◌≤◌, ap, String, ◌≡◌, refl, sym, ◌⊎◌, inl, inr, Bool, true, false, some, List,
  [], ◌∷◌, ◌==◌, ◌||◌, eq_iff, if◌then◌else◌, arith,
}
use ai_gcm.Js.{Value, JsonText, object, str, bool, get}
use ai_gcm.Effect.{Result, ok, err, plain, ok-injective}
use ai_gcm.Auth.Calls.{
  Call, connect, release, client_query, query, bcrypt_hash, bcrypt_compare, jwt_sign, jwt_verify,
  uuid, redis_set, redis_get, redis_del, AuthEnv, Secrets,
}
use ai_gcm.Auth.Refresh.{session_key, refresh_prefix}
use ai_gcm.Auth.Refresh.Store.{latest, differs, MayHold, WasSet, IsRedis, HasFreshIds}

abbrev text_of : Value → String
text_of (str s) = s
text_of _ = ""

-- The one row that every table has.
abbrev pub ada : Value
ada = object (
    ("id", str "ada")
    ∷ ("org_id", str "org")
    ∷ ("email", str "ada@org.example")
    ∷ ("name", str "Ada")
    ∷ ("role", str "super_admin")
    ∷ ("is_active", bool true)
    ∷ ("password_hash", str "hash")
    ∷ [])

abbrev pub memory : (List Call → Result String) → AuthEnv
memory ids h connect = ok tt
memory ids h release = ok tt
memory ids h (client_query sql params) = ok (ada ∷ [])
memory ids h (query sql params) = ok (ada ∷ [])
memory ids h (bcrypt_hash password rounds) = ok "hash"
memory ids h (bcrypt_compare password hash) = ok true
memory ids h (jwt_sign jwt secret) = ok (text_of (get jwt.payload "sub"))
memory ids h (jwt_verify token secret options) = ok (object (("sub", str token) ∷ []))
memory ids h uuid = ids h
memory ids h (redis_set k t n) = ok tt
memory ids h (redis_get k) = ok (latest k h)
memory ids h (redis_del k) = ok tt

pub if-cases :
    {A : Type 0} (b : Bool) {x y z : A}
    → (if b then x else y) ≡ z
    → ((b ≡ true) × (x ≡ z)) ⊎ ((b ≡ false) × (y ≡ z))
if-cases true p = inl (refl, p)
if-cases false p = inr (refl, p)

module _ (ids : List Call → Result String) (k : String) (t : JsonText) where
  latest-MayHold : (h : List Call) → latest k h ≡ some t → MayHold (memory ids) k t h
  latest-MayHold [] p = cc
  latest-MayHold (redis_set j u n ∷ h) p = elim (if-cases (j == k) p) [
    | inl (same, e) ↦ inl ((eq_iff j k).0 same, some-injective u t e)
    | inr (apart, e) ↦ inr (inl (differs j k apart), latest-MayHold h e)
  ]
  latest-MayHold (redis_del j ∷ h) p = elim (if-cases (j == k) p) [
    | inl (same, e) ↦ cc
    | inr (apart, e) ↦ (inl (differs j k apart), latest-MayHold h e)
  ]
  latest-MayHold (connect ∷ h) p = latest-MayHold h p
  latest-MayHold (_ ∷ h) p = latest-MayHold h p

pub memory-IsRedis : (ids : List Call → Result String) → IsRedis (memory ids)
memory-IsRedis ids = record { get_held = λ h k t e. latest-MayHold ids k t h (ok-injective e) }

-- Whether a key was written.
abbrev was_set : String → List Call → Bool
was_set k [] = false
was_set k (redis_set j t n ∷ h) = (j == k) || was_set k h
was_set k (_ ∷ h) = was_set k h

set-was_set : (k : String) (h : List Call) → WasSet k h → was_set k h ≡ true
set-was_set k [] p = elim p [ ]
set-was_set k (redis_set j t n ∷ h) (inl e) = rw ((eq_iff j k).1 e) refl
set-was_set k (redis_set j t n ∷ h) (inr p) = rw (set-was_set k h p) (ground arith)
set-was_set k (connect ∷ h) p = set-was_set k h p
set-was_set k (_ ∷ h) p = set-was_set k h p

-- Two ids, each given only while nothing is stored under it.
abbrev pub pool : List Call → Result String
pool h =
    if was_set (session_key "a") h
    then (if was_set (session_key "b") h then err (plain "no id left") else ok "b")
    else ok "a"

pool-fresh : (h : List Call) (id : String) → pool h ≡ ok id → was_set (session_key id) h ≡ false
pool-fresh h id e = elim (if-cases (was_set (session_key "a") h) e) [
  | inl (used, e') ↦ elim (if-cases (was_set (session_key "b") h) e') [
    | inl (used', e'') ↦ cc
    | inr (free, e'') ↦ rw (sym (ok-injective e'')) free
  ]
  | inr (free, e') ↦ rw (sym (ok-injective e')) free
]

pub pool-HasFreshIds : HasFreshIds (memory pool)
pool-HasFreshIds = record {
  fresh = λ h id e used. cc (set-was_set (session_key id) h used, pool-fresh h id e);
}

-- The source of ids that never ends: a text that is longer than every key that was written.
abbrev written : List Call → ℕ
written [] = 0
written (redis_set k t n ∷ h) = size k + written h
written (_ ∷ h) = written h

abbrev dashes : ℕ → String
dashes zero = ""
dashes (suc n) = "-" :> dashes n

abbrev pub longer : List Call → Result String
longer h = ok (dashes (written h))

size-dashes : (n : ℕ) → size (dashes n) ≡ n
size-dashes zero = refl
size-dashes (suc n) = ap suc (size-dashes n)

dashes-Lacks : (n : ℕ) → Lacks b'.' (dashes n)
dashes-Lacks zero = tt
dashes-Lacks (suc n) = ((λ e. absurd (omega (arith, e))), dashes-Lacks n)

set-written : (k : String) (h : List Call) → WasSet k h → size k ≤ written h
set-written k [] p = elim p [ ]
set-written k (redis_set j t n ∷ h) (inl e) = rw e (omega arith)
set-written k (redis_set j t n ∷ h) (inr p) = omega (arith, set-written k h p)
set-written k (connect ∷ h) p = set-written k h p
set-written k (_ ∷ h) p = set-written k h p

pub longer-IsWorking : (s : Secrets) → IsWorking (memory longer) s
longer-IsWorking s = record {
  get_latest = λ h k. refl;
  set_kept = λ h k t. refl;
  del_kept = λ h k. refl;
  signs = λ h user. (user, refl);
  verified = λ h h' user token e. (_, refl, ap (λ x. str x) (sym (ok-injective e)));
  draws = λ h. (
    dashes (written h),
    refl,
    dashes-Lacks (written h),
    (λ used. absurd (
        omega (
          arith,
          set-written (session_key (dashes (written h))) h used,
          size-append refresh_prefix (dashes (written h)),
          size-dashes (written h),
        ))),
  );
}
