-- ===== src/Gateway/Keys.antt =====
-- Key routes: requests passed on to the key vault (services/api-gateway/src/routes/keys.ts).
pub mod Attribution
use ai_gcm.Base.{String, List, [], ◌∷◌, Option, none, some, nat_eq, if◌then◌else◌}
use ai_gcm.Js.{Value, str, spread, field, end, obj}
use ai_gcm.Effect.{Prog, done, await, ◌>>=◌}
use ai_gcm.Http.{Response, reply}
use ai_gcm.Gateway.Calls.{Call, fetch, read_json, FetchRequest, Fetched, Gateway, User}
use ai_gcm.Gateway.Audit.{pass_on}

abbrev pub org_header : User → List (String × Value)
org_header user = ("X-Org-ID", user.org_id) ∷ []

abbrev pub json_headers : User → List (String × Value)
json_headers user = ("Content-Type", str "application/json") ∷ ("X-Org-ID", user.org_id) ∷ []

-- A GET or DELETE of a path at the vault.
abbrev pub vault_request : (verb vault_url : String) → List String → User → FetchRequest
vault_request verb vault_url path user = record {
  verb = verb;
  url = vault_url ∷ path;
  search = [];
  headers = org_header user;
  payload = none;
}

-- A POST whose body is the client's with one more field.
abbrev pub vault_post : String → List String → User → (body : Value) → (key : String) → FetchRequest
vault_post vault_url path user body key = record {
  verb = "POST";
  url = vault_url ∷ path;
  search = [];
  headers = json_headers user;
  payload = some (obj (spread body (field key user.user_id end)));
}

unfoldable pub forward : FetchRequest → Gateway Response
unfolding pass_on
forward request = do res ← await (fetch request); pass_on res

-- GET /keys.
unfoldable pub list_keys : String → User → Gateway Response
unfolding forward
list_keys vault_url user = forward (vault_request "GET" vault_url ("/keys" ∷ []) user)

abbrev pub create_key_request : String → User → Value → FetchRequest
create_key_request vault_url user body = vault_post vault_url ("/keys" ∷ []) user body "created_by"

-- POST /keys.
unfoldable pub create_key : String → User → (body : Value) → Gateway Response
unfolding forward
create_key vault_url user body = forward (create_key_request vault_url user body)

-- GET /keys/:id.
unfoldable pub get_key : String → User → (id : String) → Gateway Response
unfolding forward
get_key vault_url user id = forward (vault_request "GET" vault_url ("/keys/" ∷ id ∷ []) user)

abbrev pub rotate_key_request : String → User → String → Value → FetchRequest
rotate_key_request vault_url user id body =
    vault_post vault_url ("/keys/" ∷ id ∷ "/rotate" ∷ []) user body "rotated_by"

-- POST /keys/:id/rotate.
unfoldable pub rotate_key : String → User → (id : String) → (body : Value) → Gateway Response
unfolding forward
rotate_key vault_url user id body = forward (rotate_key_request vault_url user id body)

-- The reply 204 has no body to read.
unfoldable pub deleted : Fetched → Gateway Response
unfolding pass_on
deleted res = if nat_eq res.status 204 then done (reply 204 Value.undefined) else pass_on res

-- DELETE /keys/:id.
unfoldable pub delete_key : String → User → (id : String) → Gateway Response
unfolding deleted
delete_key vault_url user id = do
  res ← await (fetch (vault_request "DELETE" vault_url ("/keys/" ∷ id ∷ []) user))
  deleted res
