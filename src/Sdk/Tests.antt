-- ===== src/Sdk/Tests.antt =====
-- The theorems of the client library at a concrete request.
use ai_gcm.Base.{String, [], ◌∷◌}
use ai_gcm.Js.{Value, end, field, str, object}
use ai_gcm.Effect.{ok}
use ai_gcm.Effect.Post.{Post}
use ai_gcm.Sdk.{fetch, read_json, SdkEnv, configure, request}
use ai_gcm.Sdk.Replies.{Requested, request-Requested}

abbrev proxy : SdkEnv
proxy h (fetch sent) = ok (record { status = 200; header = λ name. str "1" })
proxy h (read_json res) = ok (object (("model", str "m") ∷ []))

abbrev text_of : Value → String
text_of (str s) = s
text_of _ = "undefined"

abbrev stringify : Value → String
stringify v = "{}"

request-Requested_example :
    Post proxy
      (Requested proxy text_of stringify
        (configure (field "apiToken" (str "t") end))
        "/v1"
        (object [])
        [])
      []
      (request text_of stringify (configure (field "apiToken" (str "t") end)) "/v1" (object []))
request-Requested_example =
    request-Requested proxy text_of stringify (configure (field "apiToken" (str "t") end)) "/v1"
      (object []) []
