-- ===== src/Auth/Tests.antt =====
-- The theorems of the authentication service at concrete requests.
use ai_gcm.Base.{◌≡◌, refl, ◌+◌, String, none, List, [], ◌∷◌}
use ai_gcm.Js.{Value, str, object}
use ai_gcm.Js.Text.{index_of}
use ai_gcm.Zod.{Zod, success}
use ai_gcm.Effect.{ok}
use ai_gcm.Effect.Run.{run}
use ai_gcm.Effect.Post.{Post}
use ai_gcm.Auth.Calls.{Call, Secrets}
use ai_gcm.Auth.Refresh.Refine.{
  Request, Session, Sessions, open_at, no_sessions, Steps, replies, serve_request, renewed, history,
}
use ai_gcm.Auth.Refresh.Refine.Represents.{
  WasSigned, Represents, Represents-open, Represents-nothing,
}
use ai_gcm.Auth.Refresh.Refine.Simulation.{sessions_refine}
use ai_gcm.Auth.Refresh.Refine.Race.{overlapping, Doubled, race-Doubled}
use ai_gcm.Auth.Refresh.Renewal.{set_call}
use ai_gcm.Effect.Turns.{turns}
use ai_gcm.Auth.Refresh.Refine.Lives.{Hands, by_login, session_lives}
use ai_gcm.Auth.Memory.{longer, longer-IsWorking, memory, pool, memory-IsRedis, pool-HasFreshIds}
use ai_gcm.Auth.Refresh.{cookie, Rotated, create_refresh_session, rotate_refresh_session}
use ai_gcm.Auth.Refresh.Store.{Failed}
use ai_gcm.Auth.Refresh.Sessions.{login, refresh, logout, serve_op, serve, rotate_once}
use ai_gcm.Auth.Email.{register_user, validate_credentials}
use ai_gcm.Auth.Email.Transaction.{commits, commits_of, register_atomic}
use ai_gcm.Auth.Email.Release.{Ended, register-Ended}
use ai_gcm.Auth.Email.Login.{Login, validate-Login}
use ai_gcm.Auth.Server
use ai_gcm.Auth.Server.Totality.{Answers, register-Answers, refresh-Answers}

abbrev unset : Secrets
unset = record { jwt_secret = none; jwt_refresh_secret = none }

-- The history after Ada has logged in, with session "a".
abbrev logged_in : List Call
logged_in = serve_op unset (memory pool) [] (login (str "ada"))

abbrev rotated : Rotated
rotated = record { user_id = str "ada"; new_refresh_token = "b.ada" }

ada_refreshes : (run (memory pool) logged_in (rotate_refresh_session unset "a.ada")).0 ≡ ok rotated
unfolding rotate_refresh_session create_refresh_session
ada_refreshes = refl

rotate_once_example :
    Failed
      (run
        (memory pool)
        (serve unset
          (memory pool)
          (serve_op unset (memory pool) logged_in (refresh "a.ada"))
          (logout "b.ada" ∷ []))
        (rotate_refresh_session unset "a.ada")).0
rotate_once_example =
    rotate_once unset (memory pool) logged_in "a.ada" (logout "b.ada" ∷ []) (memory-IsRedis pool)
      pool-HasFreshIds ada_refreshes

abbrev account : Value
account = object (
    ("org_name", str "Org")
    ∷ ("org_slug", str "org")
    ∷ ("email", str "ada@org.example")
    ∷ ("name", str "Ada")
    ∷ ("password", str "correct horse")
    ∷ [])

-- A validation that accepts everything.
abbrev lenient : Zod
lenient schema v = success v

register_atomic_example :
    commits (memory pool) (run (memory pool) [] (register_user account)).1
    ≡ commits_of (run (memory pool) [] (register_user account)).0 + 0
register_atomic_example = register_atomic (memory pool) [] account (λ h'. refl)

register-Ended_example :
    Ended []
      (run (memory pool) [] (register_user account)).0
      (run (memory pool) [] (register_user account)).1
register-Ended_example = register-Ended (memory pool) [] account (λ h'. refl)

validate-Login_example :
    Login
      (memory pool)
      []
      (str "ada@org.example")
      (str "correct horse")
      (run (memory pool) [] (validate_credentials (str "ada@org.example") (str "correct horse"))).0
      (run (memory pool) [] (validate_credentials (str "ada@org.example") (str "correct horse"))).1
validate-Login_example =
    validate-Login (memory pool) [] (str "ada@org.example") (str "correct horse")

register-Answers_example :
    Post
      (memory pool)
      (Answers (201 ∷ 400 ∷ 409 ∷ 500 ∷ []))
      []
      (Server.register lenient unset account)
register-Answers_example = register-Answers (memory pool) lenient unset [] account

abbrev refresh_body : Value
refresh_body = object (("refresh_token", str "a.ada") ∷ [])

refresh-Answers_example :
    Post
      (memory pool)
      (Answers (200 ∷ 400 ∷ 401 ∷ []))
      logged_in
      (Server.refresh unset refresh_body)
refresh-Answers_example = refresh-Answers (memory pool) unset logged_in refresh_body

abbrev ada_requests : List Request
ada_requests = Request.login "ada" ∷ Request.refresh "--------.ada" ∷ Request.logout ".ada" ∷ []

sessions_refine_example :
    (st : Sessions) × Steps
      (WasSigned (memory longer) unset)
      no_sessions
      (replies unset (memory longer) [] ada_requests)
      st
sessions_refine_example =
    sessions_refine (memory longer) unset ada_requests (longer-IsWorking unset)

ada_handed :
    Hands "ada" ".ada"
      (Request.login "ada")
      (serve_request unset (memory longer) [] (Request.login "ada")).0
unfolding create_refresh_session
ada_handed = by_login

-- Between Ada's login and her refresh, Bob logs in, and a cookie without a dot is brought.
abbrev others : List Request
others = Request.login "bob" ∷ Request.refresh "bob" ∷ []

no_dot : index_of b'.' "bob" ≡ none
unfolding index_of
no_dot = refl

session_lives_example :
    (c' : String) × ((serve_request unset
        (memory longer)
        (history unset (memory longer) [] (Request.login "ada" ∷ others))
        (Request.refresh ".ada")).0
      ≡ renewed (str "ada") c')
session_lives_example =
    session_lives (memory longer) unset [] others (Request.login "ada") "ada" ".ada"
      (longer-IsWorking unset) ada_handed (tt, ((λ i j found found'. cc (found', no_dot)), tt))

abbrev ada_session : Session
ada_session = record { user = "ada"; token = "ada" }

-- Redis holds Ada's session, under the empty id.
abbrev one_session : List Call
one_session = set_call "" (str "ada") "ada" ∷ []

one_session-Represents :
    Represents (memory longer) unset one_session (open_at "" ada_session no_sessions)
one_session-Represents =
    Represents-open "" ada_session ([], refl) (Represents-nothing (memory longer) unset)

race-Doubled_example : Doubled (memory longer) unset "ada" "" (open_at "" ada_session no_sessions) (
    turns
      (memory longer)
      one_session
      overlapping
      (rotate_refresh_session unset (cookie "" "ada"))
      (rotate_refresh_session unset (cookie "" "ada")))
race-Doubled_example =
    race-Doubled (memory longer) unset "ada" "" "ada" one_session
      (open_at "" ada_session no_sessions) (longer-IsWorking unset) one_session-Represents refl tt
