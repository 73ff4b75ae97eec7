-- ===== src/Gateway/Calls.antt =====
-- What the gateway calls outside its own code: the Postgres pool, ClickHouse's stub, fetch, and
-- the jose library. A request as a handler sees it, after `authenticate`.
use ai_gcm.Base.{ℕ, String, Option, List}
use ai_gcm.Js.{Value, JsonText}
use ai_gcm.Effect.{Prog, done, throw, plain}
use ai_gcm.Effect.Run.{Env}
use ai_gcm.Sql.{Sql}
use ai_gcm.Zod.{Parsed, success, failure}

pub record FetchRequest : Type 0 where
  pub verb : String
  pub url : List String
  pub search : List (String × Value)
  pub headers : List (String × Value)
  pub payload : Option Value

-- What `fetch` resolves to. `content` is the stream of the body, where there is one.
pub record Fetched : Type 0 where
  pub status : ℕ
  pub content_type : Option String
  pub content_disposition : Option String
  pub content : Option Value

pub data Call : Type 0 where
  query : Sql → (params : List Value) → Call
  fetch : FetchRequest → Call
  read_json read_text : Fetched → Call
  jwt_verify : (token secret : String) → Call

abbrev pub Answer : Call → Type 0
Answer (query sql params) = List Value
Answer (fetch request) = Fetched
Answer (read_json res) = Value
Answer (read_text res) = JsonText
Answer (jwt_verify token secret) = Value

abbrev pub Gateway : Type 0 → Type 0
Gateway = Prog Call Answer

abbrev pub GatewayEnv : Type 0
GatewayEnv = Env Call Answer

-- `req.user`.
pub record User : Type 0 where
  pub id : Value
  pub user_id : Value
  pub org_id : Value
  pub team_id : Value
  pub role : Value

-- `Schema.parse(value)`: a ZodError is thrown.
abbrev pub parsed : Parsed → Gateway Value
parsed (success v) = done v
parsed (failure details) = throw (plain "ZodError")
