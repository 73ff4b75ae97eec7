-- ===== src/Auth/Refresh/Refine.antt =====
-- The contract of the refresh sessions (services/auth-service/src/session/refresh.ts): a finite
-- map from session ids to the session's owner and token, without Redis, JWTs or JSON.
pub mod Represents
pub mod Simulation
pub mod Lives
pub mod Turning
pub mod Race
use ai_gcm.Base.{ℕ, ◌+◌, String, ◌≡◌, ◌≢◌, Option, none, some, List, [], ◌∷◌, ◌==◌, if◌then◌else◌}
use ai_gcm.Js.{Value, str}
use ai_gcm.Js.Text.{Lacks, index_of, slice_to, slice_from}
use ai_gcm.Effect.{Result, ok, err}
use ai_gcm.Effect.Run.{run}
use ai_gcm.Auth.Calls.{Call, AuthEnv, Secrets}
use ai_gcm.Auth.Refresh.{
  cookie, Rotated, create_refresh_session, rotate_refresh_session, revoke_refresh_session,
}

pub record Session : Type 0 where
  pub user : String
  pub token : String

abbrev pub Sessions : Type 0
Sessions = String → Option Session

abbrev pub no_sessions : Sessions
no_sessions id = none

abbrev pub open_at : String → Session → Sessions → Sessions
open_at id x st = λ j. if id == j then some x else st j

abbrev pub close_at : String → Sessions → Sessions
close_at id st = λ j. if id == j then none else st j

pub data Request : Type 0 where
  login : (user : String) → Request
  refresh logout : (cookie : String) → Request

pub data Reply : Type 0 where
  opened : (cookie : String) → Reply
  renewed : (user : Value) → (cookie : String) → Reply
  ended refused : Reply

-- The cookie's session id and token: what stands before and after its first dot.
abbrev pub Splits : String → String → String → Type 0
Splits c id token =
    (i : ℕ) × (index_of b'.' c ≡ some i) × (slice_to i c ≡ id) × (slice_from (i + 1) c ≡ token)

abbrev pub IsNew : String → Sessions → Type 0
IsNew id st = (st id ≡ none) × Lacks b'.' id

-- One request: the sessions before it, its reply, and the sessions after it. `Genuine` says which
-- tokens were signed by the service.
pub data Step (Genuine : String → Type 0) : Sessions → Request → Reply → Sessions → Type 0 where
  opens :
      {st : Sessions} {user : String} (id token : String)
      → IsNew id st
      → Step Genuine st
          (login user)
          (opened (cookie id token))
          (open_at id (record { user = user; token = token }) st)
  renews :
      {st : Sessions} {c : String} (user id token id' token' : String)
      → Splits c id token
      → st id ≡ some (record { user = user; token = token })
      → IsNew id' (close_at id st)
      → Step Genuine st
          (refresh c)
          (renewed (str user) (cookie id' token'))
          (open_at id' (record { user = user; token = token' }) (close_at id st))
  refuses_malformed :
      {st : Sessions} {c : String} → index_of b'.' c ≡ none → Step Genuine st (refresh c) refused st
  refuses_unknown :
      {st : Sessions} {c : String} (id token : String)
      → Splits c id token
      → st id ≡ none
      → Step Genuine st (refresh c) refused st
  refuses_forged :
      {st : Sessions} {c : String} (id token : String)
      → Splits c id token
      → (Genuine token → ⊥)
      → Step Genuine st (refresh c) refused st
  revokes :
      {st : Sessions} {c : String} (id token : String) (x : Session)
      → Splits c id token
      → st id ≡ some x
      → x.token ≢ token
      → Step Genuine st (refresh c) refused (close_at id st)
  closes :
      {st : Sessions} {c : String} (id token : String)
      → Splits c id token
      → Step Genuine st (logout c) ended (close_at id st)
  ignores :
      {st : Sessions} {c : String} → index_of b'.' c ≡ none → Step Genuine st (logout c) ended st

pub data Steps (Genuine : String → Type 0)
    : Sessions → List (Request × Reply) → Sessions → Type 0 where
  stop : {st : Sessions} → Steps Genuine st [] st
  step :
      {st st' st'' : Sessions} {q : Request} {a : Reply} {qs : List (Request × Reply)}
      → Step Genuine st q a st'
      → Steps Genuine st' qs st''
      → Steps Genuine st ((q, a) ∷ qs) st''

abbrev pub opened_reply : Result String → Reply
opened_reply (ok c) = opened c
opened_reply (err e) = refused

abbrev pub renewed_reply : Result Rotated → Reply
renewed_reply (ok r) = renewed r.user_id r.new_refresh_token
renewed_reply (err e) = refused

abbrev pub ended_reply : Result (Unit {0}) → Reply
ended_reply (ok x) = ended
ended_reply (err e) = refused

module _ (s : Secrets) (env : AuthEnv) where
  -- The code's reply to a request, and the history after it.
  abbrev pub serve_request : List Call → Request → Reply × List Call
  serve_request h (login user) =
      let (r, h') = run env h (create_refresh_session s (str user)) in (opened_reply r, h')
  serve_request h (refresh c) =
      let (r, h') = run env h (rotate_refresh_session s c) in (renewed_reply r, h')
  serve_request h (logout c) =
      let (r, h') = run env h (revoke_refresh_session c) in (ended_reply r, h')

  -- The requests with their replies.
  abbrev pub replies : List Call → List Request → List (Request × Reply)
  replies h [] = []
  replies h (q ∷ qs) = let (a, h') = serve_request h q in (q, a) ∷ replies h' qs

  -- The history after requests.
  abbrev pub history : List Call → List Request → List Call
  history h [] = h
  history h (q ∷ qs) = history (serve_request h q).1 qs
