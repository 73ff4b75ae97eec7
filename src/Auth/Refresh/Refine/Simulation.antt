-- ===== src/Auth/Refresh/Refine/Simulation.antt =====
-- Every request that the code serves is a step of the map of sessions
-- (services/auth-service/src/session/refresh.ts).
use mathlib.Core.Option
use ai_gcm.Base.{
  ◌+◌, String, ◌≡◌, refl, ap, ◌∙◌, inl, inr, false, Bool-cases, none, some, Option-cases, List, [],
  ◌∷◌, ◌==◌, eq_iff,
}
use ai_gcm.Js.{Value, str, get}
use ai_gcm.Js.Text.{index_of, slice_to, slice_from}
use ai_gcm.Effect.{Error, ok, err, Result-cases, throw, plain}
use ai_gcm.Effect.Run.{run, continue, run-returned, run-await}
use ai_gcm.Auth.Calls.{Call, uuid, redis_get, redis_del, Auth, AuthEnv, Secrets}
use ai_gcm.Auth.Jwt.{verify_refresh_token}
use ai_gcm.Auth.Refresh.{
  session_key, cookie, Rotated, create_refresh_session, rotate_session, fetch_session, settle_found,
  settle, reject_session,
}
use ai_gcm.Auth.Refresh.Renewal.{sign_call, verify_call, set_call, create-eq, rotate-eq, reissue-eq}
use ai_gcm.Auth.Refresh.Replay.{after_verify}
use ai_gcm.Auth.Refresh.Sessions.{
  rotate_refresh-dot, rotate_refresh-no_dot, revoke-dot, revoke-no_dot,
}
use ai_gcm.Auth.Refresh.Store.{differs}
use ai_gcm.Auth.Refresh.Refine.{
  Session, Sessions, no_sessions, open_at, close_at, Request, login, refresh, logout, Reply, Splits,
  IsNew, Step, opens, renews, refuses_malformed, refuses_unknown, refuses_forged, revokes, closes,
  ignores, Steps, stop, step, serve_request, replies, history, renewed_reply,
}
use ai_gcm.Auth.Refresh.Refine.Represents.{
  IsWorking, WasSigned, Represents, record_of, Represents-open, Represents-close, unused-none,
  Represents-nothing,
}

module _ {env : AuthEnv} {s : Secrets} (w : IsWorking env s) where
  -- A session that the code opened, for the user, under an id that is new.
  record Opened (h : List Call) (st : Sessions) (user : String) : Type 0 where
    id : String
    token : String
    after : List Call
    ran : run env h (create_refresh_session s (str user)) ≡ (ok (cookie id token), after)
    new : IsNew id st
    represents : Represents env s after (open_at id (record { user = user; token = token }) st)

  Opened-by :
      (h : List Call) (st : Sessions) (user : String) → Represents env s h st → Opened h st user
  Opened-by h st user r =
      let (token, signed) = w.signs h user in
      let h₁ : List Call = sign_call s (str user) ∷ h in
      let (id, drawn, plain_id, unused) = w.draws h₁ in
      let r₁ : Represents env s h₁ st = record { stored = r.stored; signed = r.signed } in
      let r₂ : Represents env s (uuid ∷ h₁) st = record { stored = r.stored; signed = r.signed } in
      record {
        id = id;
        token = token;
        after = set_call id (str user) token ∷ uuid ∷ h₁;
        ran = create-eq env s h (str user) signed drawn (w.set_kept _ _ _);
        new = (unused-none id r₁ unused, plain_id);
        represents = Represents-open id (record { user = user; token = token }) (h, signed) r₂;
      }

  abbrev pub Simulates : Sessions → Request → Reply × List Call → Type 0
  Simulates st q (a, h) =
      (st' : Sessions) × Step (WasSigned env s) st q a st' × Represents env s h st'

  login-Simulates :
      (h : List Call) (st : Sessions) (user : String)
      → Represents env s h st
      → Simulates st (login user) (serve_request s env h (login user))
  login-Simulates h st user r =
      let o : Opened h st user = Opened-by h st user r in
      rw o.ran (_, opens o.id o.token o.new, o.represents)

  -- A token that jose refuses was not signed by the service.
  unverified :
      {token : String} {h : List Call} {e : Error}
      → env h (verify_call s token) ≡ err e
      → WasSigned env s token
      → ⊥
  unverified {token} {h} failed (user, h', by) =
      let (p, known, sub) = w.verified h' h user token by in cc (failed, known)

  -- The reply to another token, and the two calls' history.
  rejected-eq :
      (h : List Call) (id : String)
      → (e : Error) × (run env h (reject_session id) ≡ (err e, redis_del (session_key id) ∷ h))
  unfolding reject_session
  rejected-eq h id =
      let d : Call = redis_del (session_key id) in
      let mismatch = plain "refresh token mismatch — possible replay attack" in
      let f : Unit {0} → Auth Rotated = λ _. throw mismatch in
      (
        mismatch,
        run-returned env (d ∷ h) (env h d) f ∙ ap (λ r. continue env f (r, d ∷ h)) (w.del_kept h _),
      )

  -- A token that jose refuses ends the rotation.
  refused_by :
      (h : List Call) (id token : String) (e : Error)
      → env h (verify_call s token) ≡ err e
      → run env h (rotate_session s id token) ≡ (err e, verify_call s token ∷ h)
  unfolding rotate_session verify_refresh_token
  refused_by h id token e failed =
      rw
        (
          after_verify env (verify_call s token ∷ h) (fetch_session s id token)
              (env h (verify_call s token)),
          failed,
        )
        refl

  module _ {c id token : String} (split : Splits c id token) (h : List Call) (st : Sessions) where
    -- The owner's token renews the session.
    renewed_by :
        {p : Value} (user : String)
        → Represents env s h st
        → env h (verify_call s token) ≡ ok p
        → st id ≡ some (record { user = user; token = token })
        → (a : Rotated) × (h' : List Call) × (run env h (rotate_session s id token) ≡ (ok a, h'))
          × Simulates st (refresh c) (renewed_reply (ok a), h')
    renewed_by user r known live =
        let (h', by) = r.signed id _ live in
        let (p', known', sub) = w.verified h' h user token by in
        let g : Call = redis_get (session_key id) in
        let d : Call = redis_del (session_key id) in
        let h₁ : List Call = verify_call s token ∷ h in
        let held =
          w.get_latest h₁ (session_key id)
          ∙ ap (λ x. ok x) (r.stored id ∙ ap (Option.map record_of) live) in
        let r₁ : Represents env s (g ∷ h₁) st = record { stored = r.stored; signed = r.signed } in
        let r₂ = Represents-close id r₁ in
        let o : Opened (d ∷ g ∷ h₁) (close_at id st) user =
          Opened-by (d ∷ g ∷ h₁) (close_at id st) user r₂ in
        (
          record { user_id = str user; new_refresh_token = cookie o.id o.token },
          o.after,
          rotate-eq env s h user id token known' sub held (w.del_kept _ _)
              ∙ reissue-eq env s (d ∷ g ∷ h₁) (str user) (cookie o.id o.token) o.after o.ran,
          (_, renews user id token o.id o.token split live o.new, o.represents),
        )

    -- Another token closes it.
    revoked_by :
        {p : Value} (x : Session)
        → Represents env s h st
        → env h (verify_call s token) ≡ ok p
        → st id ≡ some x
        → (x.token == token) ≡ false
        → Simulates st (refresh c) (
          renewed_reply (run env h (rotate_session s id token)).0,
          (run env h (rotate_session s id token)).1,
        )
    unfolding rotate_session fetch_session settle_found settle verify_refresh_token
    revoked_by {p} x r known live apart =
        let g : Call = redis_get (session_key id) in
        let h₁ : List Call = verify_call s token ∷ h in
        let held =
          w.get_latest h₁ (session_key id)
          ∙ ap (λ x. ok x) (r.stored id ∙ ap (Option.map record_of) live) in
        let r₁ : Represents env s (g ∷ h₁) st = record { stored = r.stored; signed = r.signed } in
        let (e, gone) = rejected-eq (g ∷ h₁) id in
        rw
          (
            after_verify env h₁ (fetch_session s id token) (env h (verify_call s token)),
            known,
            run-returned env (g ∷ h₁) (env h₁ g) (settle_found s id token (get p "sub")),
            held,
            apart,
            gone,
          )
          (_, revokes id token x split live (differs x.token token apart), Represents-close id r₁)

    missing_by :
        {p : Value}
        → Represents env s h st
        → env h (verify_call s token) ≡ ok p
        → st id ≡ none
        → Simulates st (refresh c) (
          renewed_reply (run env h (rotate_session s id token)).0,
          (run env h (rotate_session s id token)).1,
        )
    unfolding rotate_session fetch_session settle_found verify_refresh_token
    missing_by {p} r known free =
        let g : Call = redis_get (session_key id) in
        let h₁ : List Call = verify_call s token ∷ h in
        let held =
          w.get_latest h₁ (session_key id)
          ∙ ap (λ x. ok x) (r.stored id ∙ ap (Option.map record_of) free) in
        let r₁ : Represents env s (g ∷ h₁) st = record { stored = r.stored; signed = r.signed } in
        rw
          (
            after_verify env h₁ (fetch_session s id token) (env h (verify_call s token)),
            known,
            run-returned env (g ∷ h₁) (env h₁ g) (settle_found s id token (get p "sub")),
            held,
          )
          (st, refuses_unknown id token split free, r₁)

    rotates :
        Represents env s h st
        → Simulates st (refresh c) (
          renewed_reply (run env h (rotate_session s id token)).0,
          (run env h (rotate_session s id token)).1,
        )
    rotates r = elim (Result-cases (env h (verify_call s token))) [
      | inr (e, failed) ↦ rw (refused_by h id token e failed) (
        st,
        refuses_forged id token split (unverified failed),
        record { stored = r.stored; signed = r.signed },
      )
      | inl (p, known) ↦ elim (Option-cases (st id)) [
        | inl free ↦ missing_by r known free
        | inr (x, live) ↦ elim (Bool-cases (x.token == token)) [
          | inr apart ↦ revoked_by x r known live apart
          | inl alike ↦
              let e : x.token ≡ token = (eq_iff x.token token).0 alike in
              let (a, h', ran, sim) =
                renewed_by x.user r known
                  (live ∙ ap (λ t. some (record { user = x.user; token = t })) e) in
              rw ran sim
        ]
      ]
    ]

  refresh-Simulates :
      (h : List Call) (st : Sessions) (c : String)
      → Represents env s h st
      → Simulates st (refresh c) (serve_request s env h (refresh c))
  refresh-Simulates h st c r = elim (Option-cases (index_of b'.' c)) [
    | inl missing ↦ rw (rotate_refresh-no_dot s c missing) (st, refuses_malformed missing, r)
    | inr (i, found) ↦ rw (rotate_refresh-dot s c i found) (rotates (i, found, refl, refl) h st r)
  ]

  logout-Simulates :
      (h : List Call) (st : Sessions) (c : String)
      → Represents env s h st
      → Simulates st (logout c) (serve_request s env h (logout c))
  logout-Simulates h st c r = elim (Option-cases (index_of b'.' c)) [
    | inl missing ↦ rw (revoke-no_dot c missing) (st, ignores missing, r)
    | inr (i, found) ↦
        rw
          (
            revoke-dot c i found,
            run-await env h (redis_del (session_key (slice_to i c))) (w.del_kept h _),
          )
          (
            _,
            closes (slice_to i c) (slice_from (i + 1) c) (i, found, refl, refl),
            Represents-close (slice_to i c) r,
          )
  ]

  pub request-Simulates :
      (h : List Call) (st : Sessions) (q : Request)
      → Represents env s h st
      → Simulates st q (serve_request s env h q)
  request-Simulates h st (login user) r = login-Simulates h st user r
  request-Simulates h st (refresh c) r = refresh-Simulates h st c r
  request-Simulates h st (logout c) r = logout-Simulates h st c r

  pub history-Represents :
      (qs : List Request) (h : List Call) (st : Sessions)
      → Represents env s h st
      → (st' : Sessions) × Represents env s (history s env h qs) st'
  history-Represents [] h st r = (st, r)
  history-Represents (q ∷ qs) h st r =
      let (st', one, r') = request-Simulates h st q r in history-Represents qs _ st' r'

  requests-Steps :
      (qs : List Request) (h : List Call) (st : Sessions)
      → Represents env s h st
      → (st' : Sessions) × Steps (WasSigned env s) st (replies s env h qs) st'
  requests-Steps [] h st r = (st, stop)
  requests-Steps (q ∷ qs) h st r =
      let (st', one, r') = request-Simulates h st q r in
      let (st'', rest) = requests-Steps qs _ st' r' in (st'', step one rest)

-- The code implements the map of sessions: the replies to any sequence of logins, refreshes and
-- logouts, from an empty Redis on, are those of a run of the map, in which a refresh is accepted
-- only for the id and the token of a session in the map, names that session's owner, and
-- replaces the session by a new one, while a token that was signed, brought for another session,
-- closes that session; provided that Redis is a map whose keys do not expire, that jose signs, and
-- verifies what it signed, and that ids are new and hold no dot.
pub sessions_refine :
    (env : AuthEnv) (s : Secrets) (qs : List Request)
    → IsWorking env s
    → (st : Sessions) × Steps (WasSigned env s) no_sessions (replies s env [] qs) st
sessions_refine env s qs w = requests-Steps w qs [] no_sessions (Represents-nothing env s)
