-- ===== src/Gateway/Keys/Attribution.antt =====
-- On whose behalf requests reach the vault and the report service
-- (services/api-gateway/src/routes/keys.ts, reports.ts).
use ai_gcm.Base.{
  String, ◌≡◌, refl, ◌⊎◌, inl, inr, some, List, [], ◌∷◌, ◌==◌, eq_refl, if◌then◌else◌,
}
use ai_gcm.Js.{Value, str, get}
use ai_gcm.Js.Spread.{lookup-spread_field}
use ai_gcm.Effect.{Result, ok, err, done}
use ai_gcm.Effect.Post.{Post, Post-await}
use ai_gcm.Http.{Response, reply}
use ai_gcm.Gateway.Calls.{Call, fetch, read_json, User, FetchRequest, Fetched, GatewayEnv}
use ai_gcm.Gateway.Audit.{pass_on}
use ai_gcm.Gateway.Keys.{vault_post, forward, create_key, rotate_key}
use ai_gcm.Gateway.Reports.{generate_request}

-- The body sets a field to what the gateway knows of the caller.
pub record Sets (request : FetchRequest) (key : String) (value : Value) : Type 0 where
  pub sent : Value
  pub payload : request.payload ≡ some sent
  pub author : get sent key ≡ value

-- A POST to the path of the vault, which names the caller's organisation in its headers and the
-- caller in its body under `key`; every other field of the body is the client's.
pub record ActsFor (url : List String) (user : User) (body : Value) (key : String)
    (request : FetchRequest) : Type 0 where
  pub verb : request.verb ≡ "POST"
  pub to : request.url ≡ url
  pub headers :
      request.headers ≡ ("Content-Type", str "application/json") ∷ ("X-Org-ID", user.org_id) ∷ []
  pub sent : Value
  pub payload : request.payload ≡ some sent
  pub author : get sent key ≡ user.user_id
  pub passed_on : (k : String) → get sent k ≡ (if key == k then user.user_id else get body k)

module _ (env : GatewayEnv) (h : List Call) (url : List String) (user : User) (body : Value)
    (key : String) where
  -- The route has sent that request and no other; the reply has the status and the body of the
  -- vault's, and what is thrown is the error of a call.
  abbrev pub Relayed : Result Response → List Call → Type 0
  Relayed (ok r) h' =
      (request : FetchRequest) × ActsFor url user body key request
      × ((res : Fetched) × (env h (fetch request) ≡ ok res)
          × (env (fetch request ∷ h) (read_json res) ≡ ok r.body)
          × (r.status ≡ res.status)
          × (h' ≡ read_json res ∷ fetch request ∷ h))
  Relayed (err e) h' =
      (request : FetchRequest) × ActsFor url user body key request
      × (((env h (fetch request) ≡ err e) × (h' ≡ fetch request ∷ h))
          ⊎ ((res : Fetched) × (env (fetch request ∷ h) (read_json res) ≡ err e)
              × (h' ≡ read_json res ∷ fetch request ∷ h)))

  forward-Relayed :
      (request : FetchRequest)
      → ActsFor url user body key request
      → Post env Relayed h (forward request)
  unfolding forward pass_on
  forward-Relayed request acts =
      Post-await env Relayed h (fetch request) pass_on
        (λ res arrived.
          Post-await env Relayed (fetch request ∷ h) (read_json res)
            (λ content. done (reply res.status content))
            (λ content read. (request, acts, (res, arrived, read, refl, refl)))
            (λ e failed. (request, acts, inr (res, failed, refl))))
        (λ e failed. (request, acts, inl (failed, refl)))

vault_post-ActsFor :
    (vault_url : String) (path : List String) (user : User) (body : Value) (key : String)
    → ActsFor (vault_url ∷ path) user body key (vault_post vault_url path user body key)
vault_post-ActsFor vault_url path user body key = record {
  verb = refl;
  to = refl;
  headers = refl;
  sent = _;
  payload = refl;
  author = rw (eq_refl key) refl;
  passed_on = λ k. lookup-spread_field body user.user_id key k;
}

-- Whatever body a client sends, with fields `created_by` and `rotated_by` of its own as well, the
-- two routes send the vault one POST, which names the caller's organisation in X-Org-ID, tells
-- that the caller creates or rotates the key, and has the client's other fields unchanged; the
-- reply has the status and the body of the vault's, and what is thrown is the error of a call.
pub key_requests-ActsFor :
    (env : GatewayEnv) (h : List Call) (vault_url id : String) (user : User) (body : Value)
    → Post env
        (Relayed env h (vault_url ∷ "/keys" ∷ []) user body "created_by")
        h
        (create_key vault_url user body)
      × Post env
          (Relayed env h (vault_url ∷ "/keys/" ∷ id ∷ "/rotate" ∷ []) user body "rotated_by")
          h
          (rotate_key vault_url user id body)
unfolding create_key rotate_key
key_requests-ActsFor env h vault_url id user body = (
  forward-Relayed env h _ user body "created_by" _
      (vault_post-ActsFor vault_url ("/keys" ∷ []) user body "created_by"),
  forward-Relayed env h _ user body "rotated_by" _
      (vault_post-ActsFor vault_url ("/keys/" ∷ id ∷ "/rotate" ∷ []) user body "rotated_by"),
)

-- Whatever body a client sends, a report is requested for the caller's organisation and in the
-- caller's name.
generate_request-Sets :
    (url : String) (user : User) (body : Value)
    → Sets (generate_request url user body) "orgId" user.org_id
      × Sets (generate_request url user body) "requestedBy" user.user_id
generate_request-Sets url user body = (
  record { sent = _; payload = refl; author = refl },
  record { sent = _; payload = refl; author = refl },
)
