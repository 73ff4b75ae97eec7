-- ===== src/Auth/Calls.antt =====
-- What the authentication service calls outside its own code: the Postgres pool and the client
-- taken from it, Redis, bcrypt, the jose library and the uuid generator.
use ai_gcm.Base.{ℕ, String, Bool, Option, List}
use ai_gcm.Js.{Value, JsonText}
use ai_gcm.Effect.{Prog}
use ai_gcm.Effect.Run.{Env}

-- A token before it is signed: the payload given to `new SignJWT`, and what the builder adds.
pub record Jwt : Type 0 where
  pub payload : Value
  pub alg : String
  pub expiration : String
  pub issuer : String
  pub audience : Option String

pub record VerifyOptions : Type 0 where
  pub issuer : Option String
  pub audience : Option String

pub data Call : Type 0 where
  connect release : Call
  client_query query : (sql : String) → (params : List Value) → Call
  bcrypt_hash : (password : Value) → (rounds : ℕ) → Call
  bcrypt_compare : (password hash : Value) → Call
  jwt_sign : Jwt → (secret : String) → Call
  jwt_verify : (token secret : String) → VerifyOptions → Call
  uuid : Call
  redis_set : (key : String) → JsonText → (seconds : ℕ) → Call
  redis_get redis_del : (key : String) → Call

abbrev pub Answer : Call → Type 0
Answer connect = Unit
Answer release = Unit
Answer (client_query sql params) = List Value
Answer (query sql params) = List Value
Answer (bcrypt_hash password rounds) = String
Answer (bcrypt_compare password hash) = Bool
Answer (jwt_sign jwt secret) = String
Answer (jwt_verify token secret options) = Value
Answer uuid = String
Answer (redis_set key text seconds) = Unit
Answer (redis_get key) = Option JsonText
Answer (redis_del key) = Unit

abbrev pub Auth : Type 0 → Type 0
Auth = Prog Call Answer

abbrev pub AuthEnv : Type 0
AuthEnv = Env Call Answer

-- The variables of `process.env` that the service reads for its secrets.
pub record Secrets : Type 0 where
  pub jwt_secret : Option String
  pub jwt_refresh_secret : Option String
