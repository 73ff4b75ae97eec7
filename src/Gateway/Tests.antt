-- ===== src/Gateway/Tests.antt =====
-- The theorems of the gateway at concrete requests.
use Prim.Native.String
use ai_gcm.Base.{
  String, ◌≡◌, ◌≢◌, refl, sym, ◌∙◌, Bool, true, false, inl, none, some, [], ◌∷◌, ◌==◌, eq_iff,
  if◌then◌else◌, All,
}
use ai_gcm.Js.{
  Value, Fields, end, field, obj, other, str, nat, bool, object, get, is_undefined, truthy,
  undefined,
}
use ai_gcm.Zod.{Zod, Schema, Shape, optional, coerced_boolean, nil, prop, success}
use ai_gcm.Http.{Response, reply}
use ai_gcm.Effect.{ok, err, done, plain}
use ai_gcm.Effect.Run.{run}
use ai_gcm.Effect.Post.{Post}
use ai_gcm.Auth.Calls.{Secrets, AuthEnv, jwt_sign}
use ai_gcm.Auth.Jwt.{TokenPayload, sign_access_token}
use ai_gcm.Sql.Numbering.{IsNumbered}
use ai_gcm.Gateway.Calls.{query, fetch, read_json, read_text, jwt_verify, GatewayEnv, User}
use ai_gcm.Gateway.Authenticate.{authenticate, denied}
use ai_gcm.Gateway.Authenticate.Complete.{bearer}
use ai_gcm.Gateway.Authenticate.Sound.{Gated, authenticate-Gated}
use ai_gcm.Gateway.Server.{serve}
use ai_gcm.Gateway.Server.Guarded.{Guarded, serve-Guarded}
use ai_gcm.Gateway.Server.Secrets.{IsHmac, default_secrets_deny}
use ai_gcm.Gateway.Alerts.{alert_query_shape, alert_filter, acknowledge}
use ai_gcm.Gateway.Alerts.Listing.{alert_filter-IsNumbered}
use ai_gcm.Gateway.Keys.{create_key, rotate_key}
use ai_gcm.Gateway.Keys.Attribution.{Relayed, key_requests-ActsFor}
use ai_gcm.Gateway.Tenancy.{HeldTo, Services, alerts, handle}
use ai_gcm.Gateway.Tenancy.Scoped.{tenant_scoped}
use ai_gcm.Gateway.Usage.{UsageQuery, render, build_click_house_query}
use ai_gcm.Gateway.Usage.Verbatim.{before_provider, after_provider, provider_verbatim}

-- A gateway whose calls succeed. The one token is "t", signed with the authentication service's
-- default secret.
abbrev up : GatewayEnv
up h (query sql params) = ok []
up h (fetch request) =
    ok (record { status = 200; content_type = none; content_disposition = none; content = none })
up h (read_json res) = ok (object [])
up h (read_text res) = ok (other "")
up h (jwt_verify token secret) =
    if secret == "dev-access-secret"
    then (if token == "t" then ok (object (("sub", str "ada") ∷ [])) else err (plain "bad token"))
    else err (plain "bad secret")

authenticate-Gated_example :
    Post up
      (Gated up [] (some "dev-access-secret") (some "Bearer t"))
      []
      (authenticate (some "dev-access-secret") (some "Bearer t"))
authenticate-Gated_example = authenticate-Gated up [] (some "dev-access-secret") (some "Bearer t")

serve-Guarded_example :
    Guarded up []
      (some "dev-access-secret")
      (some "Bearer t")
      (λ user. acknowledge user (str "alert"))
      (run up [] (
        serve
          (some "dev-access-secret")
          (some "Bearer t")
          "/alerts"
          (done (reply 200 (object [])))
          (λ user. acknowledge user (str "alert"))))
serve-Guarded_example =
    serve-Guarded up [] (some "dev-access-secret") (some "Bearer t") "/alerts"
      (done (reply 200 (object []))) (λ user. acknowledge user (str "alert")) refl

-- An authentication service that signs every token as "t", and under its default secret only.
abbrev signer : AuthEnv
signer h (jwt_sign jwt secret) =
    if secret == "dev-access-secret" then ok "t" else err (plain "bad secret")
signer h _ = err (plain "not called")

if-ok : {A : Type 0} (b : Bool) (x : A) {y z : A} → (if b then x else y) ≡ z → y ≢ z → b ≡ true
if-ok true x p apart = refl
if-ok false x p apart = absurd (apart p)

default_only :
    {A : Type 0} (secret : String) (x y : A) {z : A}
    → (if secret == "dev-access-secret" then x else y) ≡ z
    → y ≢ z
    → secret ≡ "dev-access-secret"
default_only secret x y e apart = (eq_iff secret "dev-access-secret").0 (if-ok _ _ e apart)

up-IsHmac : IsHmac signer up
up-IsHmac = record {
  one_secret = λ h h' jwt signing verifying token p signed known.
      default_only signing _ _ signed (λ q. cc) ∙ sym (default_only verifying _ _ known (λ q. cc));
}

abbrev unset : Secrets
unset = record { jwt_secret = none; jwt_refresh_secret = none }

abbrev ada : User
ada = record {
  id = str "ada";
  user_id = str "ada";
  org_id = str "org";
  team_id = str "";
  role = str "super_admin";
}

abbrev ada_claims : TokenPayload
ada_claims = record {
  sub = str "ada";
  org_id = str "org";
  team_id = str "";
  role = str "super_admin";
  email = str "ada@org.example";
}

ada_token : (run signer [] (sign_access_token unset (ada_claims))).0 ≡ ok "t"
unfolding sign_access_token
ada_token = refl

default_secrets_deny_example :
    (r : Response) × ((run up [] (authenticate none (some (bearer "t")))).0 ≡ ok (denied r))
    × (r.status ≡ 401)
default_secrets_deny_example =
    default_secrets_deny signer up unset [] [] "t" up-IsHmac refl refl (inl (ada_claims, ada_token))

abbrev critical : Value
critical = object (("severity", str "critical") ∷ ("limit", nat 50) ∷ ("offset", nat 0) ∷ [])

-- The part of zod that coerces the Booleans of an object.
abbrev coerced_value : Schema → Value → Value
coerced_value (optional coerced_boolean) v = if is_undefined v then undefined else bool (truthy v)
coerced_value _ v = v

abbrev coerced_fields : Shape → Value → Fields
coerced_fields nil v = end
coerced_fields (prop k schema rest) v =
    field k (coerced_value schema (get v k)) (coerced_fields rest v)

abbrev coercing : Zod
coercing (Schema.object shape) v = success (obj (coerced_fields shape v))
coercing schema v = success v

abbrev unread_only : Value
unread_only = object (("is_read", str "false") ∷ [])

abbrev unread_parsed : Value
unread_parsed = obj (coerced_fields alert_query_shape unread_only)

abbrev new_key : Value
new_key = object (("name", str "production") ∷ ("created_by", str "mallory") ∷ [])

key_requests-ActsFor_example :
    Post up
      (Relayed up [] ("http://vault" ∷ "/keys" ∷ []) ada new_key "created_by")
      []
      (create_key "http://vault" ada new_key)
    × Post up
        (Relayed up [] ("http://vault" ∷ "/keys/" ∷ "7" ∷ "/rotate" ∷ []) ada new_key "rotated_by")
        []
        (rotate_key "http://vault" ada "7" new_key)
key_requests-ActsFor_example = key_requests-ActsFor up [] "http://vault" "7" ada new_key

abbrev show_text : Value → String
show_text (str s) = s
show_text _ = ""

abbrev january : UsageQuery
january = record {
  start = str "2026-01-01";
  end = str "2026-01-31";
  group_by = undefined;
  provider = undefined;
  team_id = undefined;
  user_id = undefined;
  limit = nat 100;
}

provider_verbatim_example :
    render show_text
      (build_click_house_query (str "org") (record january { provider = str "' OR 1=1 --" }))
    ≡ String.◌++◌
        (before_provider show_text (str "org") january)
        (String.◌++◌ "' OR 1=1 --" (after_provider show_text january))
provider_verbatim_example =
    provider_verbatim show_text (str "org") january "' OR 1=1 --" (λ s. refl)
      (λ e. cc ((eq_iff "' OR 1=1 --" "").1 e))

alert_filter-IsNumbered_example : IsNumbered (str "org") (alert_filter (str "org") critical)
alert_filter-IsNumbered_example = alert_filter-IsNumbered (str "org") critical

abbrev services : Services
services = record {
  audit_url = "http://audit";
  vault_url = "http://vault";
  report_url = "http://reports";
}

-- A validation that accepts everything.
abbrev lenient : Zod
lenient schema v = success v

tenant_scoped_example :
    All (HeldTo (str "org")) (run up [] (handle lenient services ada (alerts critical))).1
tenant_scoped_example = tenant_scoped up lenient services ada (alerts critical)
