-- ===== src/Web/Api.antt =====
-- The browser's client of the gateway (apps/web/src/lib/api.ts). No caller passes headers of its
-- own. `text_of` is `String(v)`.
use Prim.Native.String.{◌++◌ as ◌<>◌}
use text.Mathlib.Text.{starts_with}
use ai_gcm.Base.{
  ℕ, String, Bool, Option, none, some, List, [], ◌∷◌, leb, ltb, ◌&&◌, not, if◌then◌else◌,
}
use ai_gcm.Js.{Value, str, nat, get, truthy, or_falsy, object}
use ai_gcm.Effect.{Prog, done, throw, plain, await, catch, ◌>>=◌}
use ai_gcm.Effect.Run.{Env}

pub record ApiRequest : Type 0 where
  pub verb : Option String
  pub url : String
  pub headers : List (String × Value)
  pub payload : Option Value

pub record ApiResponse : Type 0 where
  pub status : ℕ
  pub status_text : String

pub data Call : Type 0 where
  fetch : ApiRequest → Call
  read_json : ApiResponse → Call

abbrev pub Answer : Call → Type 0
Answer (fetch request) = ApiResponse
Answer (read_json res) = Value

abbrev pub Api : Type 0 → Type 0
Api = Prog Call Answer

abbrev pub ApiEnv : Type 0
ApiEnv = Env Call Answer

-- The method and the body that a caller gives.
pub record RequestInit : Type 0 where
  pub verb : Option String
  pub payload : Option Value

-- The token set on the client, the token of the store, and the address of the gateway.
pub record Session : Type 0 where
  pub token : Value
  pub store_token : Value
  pub api_base : String

abbrev pub active_token : Session → Value
active_token s = or_falsy s.token s.store_token

abbrev pub authorization : (text_of : Value → String) → Value → List (String × Value)
authorization text_of token =
    if truthy token then ("Authorization", str ("Bearer " <> text_of token)) ∷ [] else []

abbrev pub api_url : Session → String → String
api_url s path = if starts_with path "/api/auth" then path else s.api_base <> path

abbrev pub api_request : (text_of : Value → String) → Session → String → RequestInit → ApiRequest
api_request text_of s path init = record {
  verb = init.verb;
  url = api_url s path;
  headers = ("Content-Type", str "application/json") ∷ authorization text_of (active_token s);
  payload = init.payload;
}

abbrev pub is_ok : ApiResponse → Bool
is_ok res = leb 200 res.status && ltb res.status 300

-- `err.error || err.message || `HTTP ${res.status}``, which throws for null.
abbrev pub throw_error : (text_of : Value → String) → ApiResponse → Value → Api Value
throw_error text_of res Value.null = throw (plain "Cannot read properties of null")
throw_error text_of res body = throw (
    plain (
      text_of (
        or_falsy (get body "error")
          (or_falsy (get body "message") (str ("HTTP " <> text_of (nat res.status)))))))

unfoldable pub read_reply : (text_of : Value → String) → ApiResponse → Api Value
read_reply text_of res =
    if not (is_ok res)
    then (catch (await (read_json res)) (λ e. done (object (("error", str res.status_text) ∷ [])))
        >>= throw_error text_of res)
    else await (read_json res)

unfoldable pub request : (text_of : Value → String) → Session → String → RequestInit → Api Value
unfolding read_reply
request text_of s path init = do
  res ← await (fetch (api_request text_of s path init))
  read_reply text_of res

-- `api.get`, `api.post`, `api.put` and `api.delete`.
abbrev pub gets : RequestInit
gets = record { verb = none; payload = none }

abbrev pub puts : Value → RequestInit
puts body = record { verb = some "PUT"; payload = some body }

abbrev pub deletes : RequestInit
deletes = record { verb = some "DELETE"; payload = none }

abbrev pub posts : Value → RequestInit
posts body = record { verb = some "POST"; payload = some body }

-- `api.login` and `api.register`.
unfoldable pub login : (text_of : Value → String) → Session → Value → Api Value
unfolding request
login text_of s body = request text_of s "/api/auth/login" (posts body)

unfoldable pub register : (text_of : Value → String) → Session → Value → Api Value
unfolding request
register text_of s body = request text_of s "/api/auth/register" (posts body)

unfoldable pub get_path : (text_of : Value → String) → Session → String → Api Value
unfolding request
get_path text_of s path = request text_of s path gets

unfoldable pub post_path : (text_of : Value → String) → Session → String → Value → Api Value
unfolding request
post_path text_of s path body = request text_of s path (posts body)

unfoldable pub put_path : (text_of : Value → String) → Session → String → Value → Api Value
unfolding request
put_path text_of s path body = request text_of s path (puts body)

unfoldable pub delete_path : (text_of : Value → String) → Session → String → Api Value
unfolding request
delete_path text_of s path = request text_of s path deletes
