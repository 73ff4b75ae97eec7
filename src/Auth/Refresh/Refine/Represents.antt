-- ===== src/Auth/Refresh/Refine/Represents.antt =====
-- What the history of calls must hold for a map of sessions, and how each call changes it
-- (services/auth-service/src/session/refresh.ts).
use mathlib.Core.Option
use mathlib.Core.Option.{some-injective}
use ai_gcm.Base.{
  String, ◌≡◌, refl, sym, ap, ◌∙◌, inl, inr, Bool, true, false, Bool-cases, Option, none, some,
  Option-cases, List, [], ◌∷◌, ◌==◌, eq_iff, if◌then◌else◌,
}
use ai_gcm.Js.{Value, JsonText, json, str, get}
use ai_gcm.Js.Text.{Lacks, slice_from, slice_from-append}
use ai_gcm.Effect.{ok}
use ai_gcm.Auth.Calls.{Call, uuid, redis_set, redis_get, redis_del, connect, AuthEnv, Secrets}
use ai_gcm.Auth.Refresh.{session_key, refresh_prefix, stored_session, ttl_seconds}
use ai_gcm.Auth.Refresh.Renewal.{sign_call, verify_call, set_call}
use ai_gcm.Auth.Refresh.Store.{latest, WasSet}
use ai_gcm.Auth.Refresh.Refine.{Session, Sessions, no_sessions, open_at, close_at}

-- An installation that works: Redis is a map whose keys do not expire, jose signs, and verifies
-- what it signed, and the generator of ids does not repeat one that was used.
pub record IsWorking (env : AuthEnv) (s : Secrets) : Type 0 where
  pub get_latest : (h : List Call) (k : String) → env h (redis_get k) ≡ ok (latest k h)
  pub set_kept :
      (h : List Call) (k : String) (t : JsonText) → env h (redis_set k t ttl_seconds) ≡ ok tt
  pub del_kept : (h : List Call) (k : String) → env h (redis_del k) ≡ ok tt
  pub signs :
      (h : List Call) (user : String)
      → (token : String) × (env h (sign_call s (str user)) ≡ ok token)
  pub verified :
      (h h' : List Call) (user token : String)
      → env h (sign_call s (str user)) ≡ ok token
      → (p : Value) × (env h' (verify_call s token) ≡ ok p) × (get p "sub" ≡ str user)
  pub draws :
      (h : List Call)
      → (id : String) × (env h uuid ≡ ok id) × Lacks b'.' id × (WasSet (session_key id) h → ⊥)

-- The record that Redis holds for a session.
abbrev pub record_of : Session → JsonText
record_of x = json (stored_session (str x.user) x.token)

-- The service signed the token, for some user.
abbrev pub WasSigned : AuthEnv → Secrets → String → Type 0
WasSigned env s token =
    (user : String) × (h : List Call) × (env h (sign_call s (str user)) ≡ ok token)

pub record Represents (env : AuthEnv) (s : Secrets) (h : List Call) (st : Sessions) : Type 0 where
  pub stored : (id : String) → latest (session_key id) h ≡ Option.map record_of (st id)
  -- Every token in the map is one that jose signed for the session's owner.
  pub signed :
      (id : String) (x : Session)
      → st id ≡ some x
      → (h' : List Call) × (env h' (sign_call s (str x.user)) ≡ ok x.token)

-- Keys are equal when the ids are.
key_injective : (j k : String) → session_key j ≡ session_key k → j ≡ k
key_injective j k e =
    sym (slice_from-append refresh_prefix j)
    ∙ (ap (slice_from 8) e ∙ slice_from-append refresh_prefix k)

pub key_eq : (j k : String) → (session_key j == session_key k) ≡ (j == k)
key_eq j k = elim (Bool-cases (j == k)) [
  | inl same ↦ rw (same, (eq_iff j k).0 same) ((eq_iff (session_key k) (session_key k)).1 refl)
  | inr apart ↦ elim (Bool-cases (session_key j == session_key k)) [
    | inl same ↦
        let e : j ≡ k = key_injective j k ((eq_iff (session_key j) (session_key k)).0 same) in
        cc (apart, (eq_iff j k).1 e)
    | inr apart' ↦ rw (apart, apart') refl
  ]
]

pub latest-WasSet : (k : String) (t : JsonText) (h : List Call) → latest k h ≡ some t → WasSet k h
latest-WasSet k t [] e = cc
latest-WasSet k t (redis_set j u n ∷ h) e = elim (Bool-cases (j == k)) [
  | inl same ↦ inl ((eq_iff j k).0 same)
  | inr apart ↦ inr (latest-WasSet k t h (rw apart at e))
]
latest-WasSet k t (redis_del j ∷ h) e = elim (Bool-cases (j == k)) [
  | inl same ↦ let e' : none ≡ some t = rw same at e in absurd cc
  | inr apart ↦ latest-WasSet k t h (rw apart at e)
]
latest-WasSet k t (connect ∷ h) e = latest-WasSet k t h e
latest-WasSet k t (_ ∷ h) e = latest-WasSet k t h e

map-if :
    (b : Bool) (x : Session) (o : Option Session)
    → Option.map record_of (if b then some x else o)
      ≡ (if b then some (record_of x) else Option.map record_of o)
map-if true x o = refl
map-if false x o = refl

map-if_none :
    (b : Bool) (o : Option Session)
    → Option.map record_of (if b then none else o) ≡ (if b then none else Option.map record_of o)
map-if_none true o = refl
map-if_none false o = refl

module _ {env : AuthEnv} {s : Secrets} {h : List Call} {st : Sessions} where
  pub Represents-open :
      (id : String) (x : Session)
      → (h' : List Call) × (env h' (sign_call s (str x.user)) ≡ ok x.token)
      → Represents env s h st
      → Represents env s (set_call id (str x.user) x.token ∷ h) (open_at id x st)
  Represents-open id x by r = record {
    stored = λ j. rw (key_eq id j, r.stored j, map-if (id == j) x (st j)) refl;
    signed = λ j y e. elim (Bool-cases (id == j)) [
      | inl same ↦ let e' : some x ≡ some y = rw same at e in rw (sym (some-injective x y e')) by
      | inr apart ↦ r.signed j y (rw apart at e)
    ];
  }

  pub Represents-close :
      (id : String)
      → Represents env s h st
      → Represents env s (redis_del (session_key id) ∷ h) (close_at id st)
  Represents-close id r = record {
    stored = λ j. rw (key_eq id j, r.stored j, map-if_none (id == j) (st j)) refl;
    signed = λ j y e. elim (Bool-cases (id == j)) [
      | inl same ↦ let e' : none ≡ some y = rw same at e in absurd cc
      | inr apart ↦ r.signed j y (rw apart at e)
    ];
  }

  -- An id that was never used has no session.
  pub unused-none :
      (id : String) → Represents env s h st → (WasSet (session_key id) h → ⊥) → st id ≡ none
  unused-none id r unused = elim (Option-cases (st id)) [
    | inl free ↦ free
    | inr (x, e) ↦ absurd (
        unused (
          latest-WasSet (session_key id) (record_of x) h
            (r.stored id ∙ ap (Option.map record_of) e)))
  ]

pub Represents-nothing : (env : AuthEnv) (s : Secrets) → Represents env s [] no_sessions
Represents-nothing env s = record { stored = λ id. refl; signed = λ id x e. absurd cc }
