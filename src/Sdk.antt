-- ===== src/Sdk.antt =====
-- The client library (packages/sdk-js/src/client.ts): requests to the proxy, with the attribution
-- headers of the configuration and the cost headers of the reply.
pub mod Replies
mod Tests
use Prim.Native.String.{◌++◌ as ◌<>◌}
use ai_gcm.Base.{
  ℕ, String, Bool, Option, none, some, List, [], ◌∷◌, ◌++◌, leb, ltb, ◌&&◌, not, if◌then◌else◌,
}
use ai_gcm.Js.{Value, Fields, field, end, obj, str, nat, get, spread, truthy, object}
use ai_gcm.Effect.{Error, Prog, done, throw, plain, await, catch, ◌>>=◌, ◌>>◌}
use ai_gcm.Effect.Run.{Env}

pub record ProxyRequest : Type 0 where
  pub url : String
  pub headers : List (String × Value)
  pub payload : Value

-- What `fetch` resolves to; a header that is absent is null.
pub record ProxyResponse : Type 0 where
  pub status : ℕ
  pub header : String → Value

pub data Call : Type 0 where
  fetch : ProxyRequest → Call
  read_json : ProxyResponse → Call

abbrev pub Answer : Call → Type 0
Answer (fetch request) = ProxyResponse
Answer (read_json res) = Value

abbrev pub Sdk : Type 0 → Type 0
Sdk = Prog Call Answer

abbrev pub SdkEnv : Type 0
SdkEnv = Env Call Answer

abbrev pub defaults : Value
defaults =
    object
      (("baseUrl", str "https://proxy.ai-gcm.io") ∷ ("projectId", str "") ∷ ("teamId", str "") ∷ [])

-- `{ baseUrl: …, projectId: '', teamId: '', ...config }`, for the properties of `config`.
abbrev pub configure : Fields → Value
configure config = obj (spread defaults config)

abbrev pub header_if : String → Value → List (String × Value)
header_if name v = if truthy v then (name, v) ∷ [] else []

-- `text_of` is `String(v)`.
abbrev pub request_headers : (text_of : Value → String) → Value → List (String × Value)
request_headers text_of config =
    ("Content-Type", str "application/json")
      ∷ ("Authorization", str ("Bearer " <> text_of (get config "apiToken")))
      ∷ header_if "X-AIGCM-Project" (get config "projectId")
    ++ header_if "X-AIGCM-Team-ID" (get config "teamId")

abbrev pub proxy_request :
    (text_of : Value → String) → Value → (path : String) → Value → ProxyRequest
proxy_request text_of config path body = record {
  url = text_of (get config "baseUrl") <> path;
  headers = request_headers text_of config;
  payload = body;
}

-- `res.ok`.
abbrev pub is_ok : ProxyResponse → Bool
is_ok res = leb 200 res.status && ltb res.status 300

abbrev pub cost_metadata : ProxyResponse → Value
cost_metadata res = object (
    ("cost", res.header "X-AIGCM-Cost-USD")
    ∷ ("tokensIn", res.header "X-AIGCM-Tokens-In")
    ∷ ("tokensOut", res.header "X-AIGCM-Tokens-Out")
    ∷ ("budgetRemaining", res.header "X-AIGCM-Budget-Remaining")
    ∷ [])

-- `{ ...data, _aigcm: … }`.
abbrev pub with_metadata : ProxyResponse → Value → Value
with_metadata res data' = obj (spread data' (field "_aigcm" (cost_metadata res) end))

-- `AI-GCM proxy error ${status}: ${JSON.stringify(err)}`; `stringify` is JSON.stringify.
abbrev pub error_text :
    (text_of : Value → String) → (stringify : Value → String) → ℕ → Value → String
error_text text_of stringify status err =
    "AI-GCM proxy error " <> (text_of (nat status) <> (": " <> stringify err))

-- The error of a reply that is not ok; a body that is no JSON counts as {}.
pub fail_reply :
    (text_of : Value → String) → (stringify : Value → String) → ProxyResponse → Sdk Value
fail_reply text_of stringify res = catch (await (read_json res)) (λ e. done (object [])) >>= λ body.
    throw (plain (error_text text_of stringify res.status body))

pub read_reply :
    (text_of : Value → String) → (stringify : Value → String) → ProxyResponse → Sdk Value
unfolding fail_reply
read_reply text_of stringify res =
    if not (is_ok res)
    then fail_reply text_of stringify res
    else (await (read_json res) >>= λ data'. done (with_metadata res data'))

unfoldable pub request :
    (text_of : Value → String)
    → (stringify : Value → String) → (config : Value) → (path : String) → (body : Value) → Sdk Value
unfolding read_reply
request text_of stringify config path body = do
  res ← await (fetch (proxy_request text_of config path body))
  read_reply text_of stringify res

-- anthropic.messages.create and openai.chat.completions.create.
unfoldable pub anthropic_create :
    (text_of : Value → String)
    → (stringify : Value → String) → (config : Value) → (body : Value) → Sdk Value
unfolding request
anthropic_create text_of stringify config body =
    request text_of stringify config "/proxy/v1/anthropic/v1/messages" body

unfoldable pub openai_create :
    (text_of : Value → String)
    → (stringify : Value → String) → (config : Value) → (body : Value) → Sdk Value
unfolding request
openai_create text_of stringify config body =
    request text_of stringify config "/proxy/v1/openai/v1/chat/completions" body
