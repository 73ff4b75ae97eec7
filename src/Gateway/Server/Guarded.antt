-- ===== src/Gateway/Server/Guarded.antt =====
-- Handlers run only for admitted users (services/api-gateway/src/index.ts).
use ai_gcm.Base.{String, ◌≡◌, refl, ap, ◌⊎◌, inl, inr, false, Option, List, ◌==◌}
use ai_gcm.Effect.{Result, ok, err}
use ai_gcm.Effect.Run.{run, continue, run-bind}
use ai_gcm.Http.{Response}
use ai_gcm.Gateway.Calls.{Call, Gateway, GatewayEnv, User}
use ai_gcm.Gateway.Authenticate.{Gate, denied, admitted, authenticate}
use ai_gcm.Gateway.Authenticate.Sound.{Admission, Gated, authenticate-Gated}
use ai_gcm.Gateway.Server.{enter, serve}

module _ (env : GatewayEnv) (h : List Call) (secret header : Option String)
    (handler : User → Gateway Response) where
  -- The handler ran for a user whose token was verified, or the reply is 401 and the handler
  -- has made no call.
  abbrev pub Guarded : Result Response × List Call → Type 0
  Guarded outcome =
      ((u : User) × (h' : List Call) × Admission env h secret header u
        × (outcome ≡ run env h' (handler u)))
      ⊎ ((r : Response) × (outcome ≡ (ok r, (run env h (authenticate secret header)).1))
          × (r.status ≡ 401))

  entered :
      (g : Result Gate) (h' : List Call)
      → h' ≡ (run env h (authenticate secret header)).1
      → Gated env h secret header g h'
      → Guarded (continue env (enter handler) (g, h'))
  unfolding enter
  entered (ok (admitted u)) h' e admission = inl (u, h', admission, refl)
  entered (ok (denied r)) h' e status = inr (r, ap (λ x. (ok r, x)) e, status)
  entered (err x) h' e none = elim none [ ]

-- On every path but /health, a handler runs only for the user of a token that was verified under
-- the gateway's secret; otherwise the reply is 401 and nothing of the handler has happened.
pub serve-Guarded :
    (env : GatewayEnv) (h : List Call) (secret header : Option String) (path : String)
    (health : Gateway Response) (handler : User → Gateway Response)
    → (path == "/health") ≡ false
    → Guarded env h secret header handler (run env h (serve secret header path health handler))
unfolding serve
serve-Guarded env h secret header path health handler closed = rw closed (
    rw (run-bind env h (authenticate secret header) (enter handler))
      (entered env h secret header handler _ _ refl (authenticate-Gated env h secret header)))
