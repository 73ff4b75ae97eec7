-- ===== src/Gateway/Reports.antt =====
-- Report routes: requests passed on to the report service
-- (services/api-gateway/src/routes/reports.ts).
use Prim.Native.String.{◌++◌ as ◌<>◌}
use ai_gcm.Base.{ℕ, String, List, [], ◌∷◌, ◌++◌, Option, none, some, nat_eq, ◌==◌, if◌then◌else◌}
use ai_gcm.Js.{Value, str, nat, get, truthy, object, spread, field, end, obj}
use ai_gcm.Effect.{done, await, ◌>>=◌}
use ai_gcm.Http.{Response, reply, error_reply}
use ai_gcm.Gateway.Calls.{fetch, read_json, FetchRequest, Fetched, Gateway, User}
use ai_gcm.Gateway.Audit.{pass_on}

abbrev set_if : Value → String → List (String × Value)
set_if v key = if truthy v then (key, v) ∷ [] else []

abbrev pub list_request : String → User → Value → FetchRequest
list_request url user q = record {
  verb = "GET";
  url = url ∷ "/reports" ∷ [];
  search =
      ("org_id", user.org_id) ∷ set_if (get q "limit") "limit" ++ set_if (get q "offset") "offset";
  headers = [];
  payload = none;
}

-- GET /reports.
unfoldable pub list_reports : String → User → Value → Gateway Response
unfolding pass_on
list_reports url user q = do res ← await (fetch (list_request url user q)); pass_on res

abbrev pub generate_request : String → User → Value → FetchRequest
generate_request url user body = record {
  verb = "POST";
  url = url ∷ "/reports/generate" ∷ [];
  search = [];
  headers = ("Content-Type", str "application/json") ∷ [];
  payload =
      some (obj (spread body (field "requestedBy" user.user_id (field "orgId" user.org_id end))));
}

-- POST /reports/generate.
unfoldable pub generate_report : String → User → (body : Value) → Gateway Response
unfolding pass_on
generate_report url user body = do res ← await (fetch (generate_request url user body)); pass_on res

abbrev pub download_request : String → String → FetchRequest
download_request url id = record {
  verb = "GET";
  url = url ∷ "/reports/" ∷ id ∷ "/download" ∷ [];
  search = [];
  headers = [];
  payload = none;
}

-- A reply and the two headers that the gateway sets with it.
pub record Download : Type 0 where
  pub response : Response
  pub headers : List (String × String)

abbrev pub header_or : Option String → String → String
header_or none fallback = fallback
header_or (some s) fallback = if s == "" then fallback else s

abbrev pub stream_headers : String → Fetched → List (String × String)
stream_headers id res =
    ("Content-Type", header_or res.content_type "application/octet-stream")
    ∷ (
      "Content-Disposition",
      header_or res.content_disposition ("attachment; filename=\"report-" <> (id <> "\"")),
    )
    ∷ []

abbrev pub streamed : String → Fetched → Option Value → Download
streamed id res none = record {
  response = error_reply 500 "empty_body";
  headers = stream_headers id res;
}
streamed id res (some content) = record {
  response = reply 200 content;
  headers = stream_headers id res;
}

abbrev pub failed_download : ℕ → Response
failed_download status =
    reply status (object (("error", str "failed_download") ∷ ("status", nat status) ∷ []))

pub relay : String → Fetched → Gateway Download
relay id res =
    if nat_eq res.status 200
    then done (streamed id res res.content)
    else if nat_eq res.status 202
    then (await (read_json res) >>= λ body.
        done (record { response = reply 202 body; headers = [] }))
    else done (record { response = failed_download res.status; headers = [] })

-- GET /reports/:id/download. The caller is not consulted.
unfoldable pub download : String → User → (id : String) → Gateway Download
unfolding relay
download url user id = do res ← await (fetch (download_request url id)); relay id res
