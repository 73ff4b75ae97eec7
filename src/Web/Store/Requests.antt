-- ===== src/Web/Store/Requests.antt =====
-- What the browser sends after a logout (apps/web/src/store/useAppStore.ts, apps/web/src/lib/api.ts,
-- apps/web/src/components/layout/Sidebar.tsx).
use ai_gcm.Base.{String, ◌≡◌, refl, not, List, [], ◌∷◌, All}
use ai_gcm.Js.{Value, str}
use ai_gcm.Effect.{await}
use ai_gcm.Effect.Keeps.{
  Keeps, Keeps-done, Keeps-throw, Keeps-if, Keeps-await, Keeps-bind, Keeps-catch,
}
use ai_gcm.Effect.Run.{run}
use ai_gcm.Web.Store.{AppState, Action, act_all}
use ai_gcm.Web.Store.Session.{IsPlain, act_all-null}
use ai_gcm.Web.Sidebar.{handle_logout}
use ai_gcm.Web.Api.{
  Call, fetch, read_json, ApiResponse, is_ok, throw_error, Session, RequestInit, ApiEnv,
  api_request, request, read_reply,
}

-- The client's session over a state of the store. Nothing sets the client's own token.
abbrev pub session_of : (api_base : String) → AppState → Session
session_of api_base s = record { token = Value.null; store_token = s.token; api_base = api_base }

-- The call carries no header but the content type.
abbrev pub IsAnonymous : Call → Type 0
IsAnonymous (fetch r) = r.headers ≡ ("Content-Type", str "application/json") ∷ []
IsAnonymous (read_json res) = Unit

module _ {env : ApiEnv} (text_of : Value → String) where
  Anonymous-throw_error :
      (res : ApiResponse) (v : Value) → Keeps env (All IsAnonymous) (throw_error text_of res v)
  Anonymous-throw_error res Value.null = Keeps-throw _
  Anonymous-throw_error res Value.undefined = Keeps-throw _
  Anonymous-throw_error res (Value.bool b) = Keeps-throw _
  Anonymous-throw_error res (Value.num n) = Keeps-throw _
  Anonymous-throw_error res (str t) = Keeps-throw _
  Anonymous-throw_error res (Value.obj fs) = Keeps-throw _
  Anonymous-throw_error res (Value.arr vs) = Keeps-throw _

  Anonymous-read_json : (res : ApiResponse) → Keeps env (All IsAnonymous) (await (read_json res))
  Anonymous-read_json res = Keeps-await (read_json res) (λ h p. (tt, p))

  Anonymous-read_reply : (res : ApiResponse) → Keeps env (All IsAnonymous) (read_reply text_of res)
  unfolding read_reply
  Anonymous-read_reply res =
      Keeps-if (not (is_ok res)) _ _
        (Keeps-bind _ _ (Keeps-catch _ _ (Anonymous-read_json res) (λ e. Keeps-done _))
          (Anonymous-throw_error res))
        (Anonymous-read_json res)

  Anonymous-request :
      (s : Session) (path : String) (init : RequestInit)
      → IsAnonymous (fetch (api_request text_of s path init))
      → Keeps env (All IsAnonymous) (request text_of s path init)
  unfolding request
  Anonymous-request s path init plain =
      Keeps-bind _ _ (Keeps-await (fetch (api_request text_of s path init)) (λ h p. (plain, p)))
        Anonymous-read_reply

-- After signing out in the sidebar, whatever is done but signing in, a request of the browser to any path carries no
-- token: its only header is the content type.
pub signed_out-IsAnonymous :
    (text_of : Value → String) (env : ApiEnv) (api_base : String) (s : AppState) (as' : List Action)
    (path : String) (init : RequestInit)
    → All IsPlain as'
    → All IsAnonymous
        (run env []
          (request text_of (session_of api_base (act_all (handle_logout s).0 as')) path init)).1
signed_out-IsAnonymous text_of env api_base s as' path init p =
    (Anonymous-request {env = env} text_of (session_of api_base (act_all (handle_logout s).0 as'))
        path init (rw (act_all-null (handle_logout s).0 as' refl p) refl)).at
      [] tt
