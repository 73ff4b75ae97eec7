-- ===== src/Sdk/Replies.antt =====
-- What a request of the client library comes to (packages/sdk-js/src/client.ts).
use Prim.Native.String.{◌++◌ as ◌<>◌}
use ai_gcm.Base.{
  ◌≤◌, ◌<◌, arith, String, ◌≡◌, refl, sym, true, false, Bool-cases, inl, inr, ◌⊎◌, List, [], ◌∷◌,
  ◌==◌, if◌then◌else◌,
}
use ai_gcm.Js.{Value, get, nat, object}
use ai_gcm.Js.Spread.{lookup-spread_field}
use ai_gcm.Effect.{Error, Result, ok, err, done, await, catch, ◌>>=◌}
use ai_gcm.Effect.Run.{await-answer}
use ai_gcm.Effect.Post.{Post, Post-await, Post-bind, Post-catch}
use ai_gcm.Sdk.{
  Call, fetch, read_json, ProxyResponse, SdkEnv, proxy_request, is_ok, cost_metadata, with_metadata,
  fail_reply, read_reply, request,
}

-- The status is one of 200 to 299; the value has its body's properties, and under `_aigcm` the cost,
-- the tokens and the budget of the reply's headers.
pub record Tracked (env : SdkEnv) (h : List Call) (sent : Call) (res : ProxyResponse) (v : Value)
    : Type 0 where
  pub from : 200 ≤ res.status
  pub below : res.status < 300
  pub content : Value
  pub read : env (sent ∷ h) (read_json res) ≡ ok content
  pub passed_on :
      (k : String)
      → get v k ≡ (
          if "_aigcm" == k
          then object (
              ("cost", res.header "X-AIGCM-Cost-USD")
              ∷ ("tokensIn", res.header "X-AIGCM-Tokens-In")
              ∷ ("tokensOut", res.header "X-AIGCM-Tokens-Out")
              ∷ ("budgetRemaining", res.header "X-AIGCM-Budget-Remaining")
              ∷ [])
          else get content k)

-- The body of a reply that is not ok, as the error shows it: {} for one that is no JSON.
abbrev pub Shown : SdkEnv → List Call → Call → ProxyResponse → Value → Type 0
Shown env h sent res b =
    (env (sent ∷ h) (read_json res) ≡ ok b)
    ⊎ (((e : Error) × (env (sent ∷ h) (read_json res) ≡ err e)) × (b ≡ object []))

-- An error of the body of a reply 200 to 299; or that of another status, which it gives with the
-- body.
abbrev pub Thrown :
    SdkEnv
    → (text_of : Value → String) → (stringify : Value → String) → List Call
    → Call
    → ProxyResponse
    → Error
    → Type 0
Thrown env text_of stringify h sent res e =
    ((200 ≤ res.status) × (res.status < 300) × (env (sent ∷ h) (read_json res) ≡ err e))
    ⊎ (((res.status < 200) ⊎ (300 ≤ res.status))
        × ((b : Value) × Shown env h sent res b
            × (e.message
                ≡ "AI-GCM proxy error " <> (text_of (nat res.status) <> (": " <> stringify b)))))

is_ok-bounds : (res : ProxyResponse) → is_ok res ≡ true → (200 ≤ res.status) × (res.status < 300)
is_ok-bounds res e = (ground arith, ground arith)

not_ok-bounds : (res : ProxyResponse) → is_ok res ≡ false → (res.status < 200) ⊎ (300 ≤ res.status)
not_ok-bounds res e = ground arith

module _ (env : SdkEnv) (text_of : Value → String) (stringify : Value → String) (config : Value)
    (path : String) (body : Value) (h : List Call) where
  abbrev sent : Call
  sent = fetch (proxy_request text_of config path body)

  abbrev pub Requested : Result Value → List Call → Type 0
  Requested (ok v) h' = (res : ProxyResponse) × (env h sent ≡ ok res) × Tracked env h sent res v
  Requested (err e) h' =
      (env h sent ≡ err e)
      ⊎ ((res : ProxyResponse) × (env h sent ≡ ok res) × Thrown env text_of stringify h sent res e)

  abbrev Returns : ProxyResponse → Result Value → List Call → Type 0
  Returns res (ok b) h' = Shown env h sent res b
  Returns res (err e) h' = ⊥

  module _ (res : ProxyResponse) (arrived : env h sent ≡ ok res) where
    abbrev Read : Result Value → List Call → Type 0
    Read r h' = env (sent ∷ h) (read_json res) ≡ r

    fail-Requested :
        is_ok res ≡ false → Post env Requested (sent ∷ h) (fail_reply text_of stringify res)
    unfolding fail_reply
    fail-Requested bad =
        Post-bind env (Returns res) Requested (sent ∷ h)
          (catch (await (read_json res)) (λ e. done (object []))) _
          (Post-catch env Read (Returns res) (sent ∷ h) (await (read_json res))
            (λ e. done (object [])) (sym (await-answer env (sent ∷ h) (read_json res)))
            (λ b _ same. inl same) (λ e _ same. inr ((e, same), refl)))
          (λ b _ shown. inr (res, arrived, inr (not_ok-bounds res bad, (b, shown, refl))))
          (λ e _ never. elim never [ ])

    read-Requested :
        is_ok res ≡ true
        → Post env Requested
            (sent ∷ h)
            (await (read_json res) >>= λ data'. done (with_metadata res data'))
    read-Requested good =
        Post-await env Requested (sent ∷ h) (read_json res) _
          (λ data' known. (
            res,
            arrived,
            record {
              from = (is_ok-bounds res good).0;
              below = (is_ok-bounds res good).1;
              content = data';
              read = known;
              passed_on = λ k. lookup-spread_field data' (cost_metadata res) "_aigcm" k;
            },
          ))
          (λ e failed.
            inr (res, arrived, inl ((is_ok-bounds res good).0, (is_ok-bounds res good).1, failed)))

    reply-Requested : Post env Requested (sent ∷ h) (read_reply text_of stringify res)
    unfolding read_reply
    reply-Requested = elim (Bool-cases (is_ok res)) [
      | inl good ↦ rw (good, read_reply) (read-Requested good)
      | inr bad ↦ rw (bad, read_reply) (fail-Requested bad)
    ]

-- A request returns only for a reply whose status is 200 to 299, and then its body with the cost,
-- the tokens and the budget of the reply's headers under `_aigcm`; it throws only the error of a
-- call, or, for any other status, an error whose text has that status and the body, or {} for a body
-- that could not be read.
pub request-Requested :
    (env : SdkEnv) (text_of : Value → String) (stringify : Value → String) (config : Value)
    (path : String) (body : Value) (h : List Call)
    → Post env
        (Requested env text_of stringify config path body h)
        h
        (request text_of stringify config path body)
unfolding request
request-Requested env text_of stringify config path body h =
    let sent' : Call = fetch (proxy_request text_of config path body) in
    Post-await env (Requested env text_of stringify config path body h) h sent'
      (read_reply text_of stringify)
      (λ res arrived. reply-Requested env text_of stringify config path body h res arrived)
      (λ e failed. inl failed)
