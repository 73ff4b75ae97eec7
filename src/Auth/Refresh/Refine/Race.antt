-- ===== src/Auth/Refresh/Refine/Race.antt =====
-- Two refreshes of one cookie at a time (services/auth-service/src/session/refresh.ts): the session
-- is read by one call and deleted by a later one.
use ai_gcm.Base.{
  String, ◌≡◌, ◌≢◌, refl, sym, ap, ◌∙◌, inl, inr, Bool, true, false, none, some, ◌==◌, eq_iff,
  arith, List, [], ◌∷◌, eq_refl, drop,
}
use ai_gcm.Js.{str}
use ai_gcm.Js.Text.{Lacks}
use ai_gcm.Effect.{done, ◌>>=◌}
use ai_gcm.Effect.Turns.{turns, first-turn, second-turn}
use ai_gcm.Auth.Calls.{Call, uuid, redis_get, redis_del, Auth, AuthEnv, Secrets}
use ai_gcm.Auth.Refresh.{
  session_key, cookie, Rotated, rotate_refresh_session, rotate_session, fetch_session,
  renew_session, reissue, issue, save,
}
use ai_gcm.Auth.Refresh.Renewal.{verify_call, created_dot}
use ai_gcm.Auth.Refresh.Refine.{Session, Sessions, open_at, close_at}
use ai_gcm.Auth.Refresh.Refine.Represents.{
  IsWorking, Represents, Represents-open, Represents-close, unused-none,
}
use ai_gcm.Auth.Refresh.Refine.Turning.{
  Reads, Renews, Reads-by, Renews-by, turn-verify, turn-read, turn-delete, turn-sign, turn-draw,
  turn-save, rotated, renewed_history, d, g,
}

-- Each request verifies its token and reads its session; only then the first one deletes it.
abbrev pub overlapping : List Bool
overlapping =
    true ∷ true ∷ false ∷ false ∷ true ∷ true ∷ true ∷ true ∷ false ∷ false ∷ false ∷ false ∷ []

-- Both requests return the cookie of a session of their own, neither of which was there before, and
-- both sessions are the user's and are open in the end, while the session of the old cookie is
-- closed.
pub record Doubled (env : AuthEnv) (s : Secrets) (user id : String) (st : Sessions)
    (outcome : Auth Rotated × Auth Rotated × List Call) : Type 0 where
  pub first_id : String
  pub first_token : String
  pub second_id : String
  pub second_token : String
  pub after : List Call
  pub ran : outcome ≡ (
    done (record { user_id = str user; new_refresh_token = cookie first_id first_token }),
    done (record { user_id = str user; new_refresh_token = cookie second_id second_token }),
    after,
  )
  pub distinct : first_id ≢ second_id
  pub first_new : st first_id ≡ none
  pub second_new : st second_id ≡ none
  pub sessions : Sessions
  pub held : Represents env s after sessions
  pub first_open : sessions first_id ≡ some (record { user = user; token = first_token })
  pub second_open : sessions second_id ≡ some (record { user = user; token = second_token })
  pub closed : sessions id ≡ none

apart_is_false : (a b : String) → a ≢ b → (a == b) ≡ false
apart_is_false a b p = ground (arith, eq_iff a b)

open_or_none :
    (st : Sessions) {id id' : String} {x : Session} → st id ≡ some x → st id' ≡ none → id ≡ id' → ⊥
open_or_none st {id} {id'} live free e = cc (live, free, ap st e)

module _ {env : AuthEnv} {s : Secrets} (w : IsWorking env s) where
  -- Both requests verify and read.
  both-read :
      (user id token : String) (h : List Call)
      → Reads env s user id token h
      → Reads env s user id token (redis_get (session_key id) ∷ verify_call s token ∷ h)
      → turns env h overlapping (rotate_session s id token) (rotate_session s id token)
        ≡ turns env
            (redis_get (session_key id)
              ∷ verify_call s token
              ∷ redis_get (session_key id)
              ∷ verify_call s token
              ∷ h)
            (drop 4 overlapping)
            (renew_session s id (str user))
            (renew_session s id (str user))
  both-read user id token h a b =
      let v : Call = verify_call s token in
      let h₁ : List Call = redis_get (session_key id) ∷ v ∷ h in
      let start : Auth Rotated = rotate_session s id token in
      let reading : Auth Rotated = fetch_session s id token (str user) in
      let waiting : Auth Rotated = renew_session s id (str user) in
      first-turn env h start (drop 1 overlapping) start (turn-verify env s user id token h a)
      ∙ first-turn env (v ∷ h) reading (drop 2 overlapping) start
          (turn-read env s user id token h a)
      ∙ second-turn env h₁ start (drop 3 overlapping) waiting (turn-verify env s user id token h₁ b)
      ∙ second-turn env (v ∷ h₁) reading (drop 4 overlapping) waiting
          (turn-read env s user id token h₁ b)

  -- The first request finishes, and then the second one.
  first-Renews :
      (user id : String) (h : List Call) (b : Renews env s user id h) (n : Auth Rotated)
      → turns env h (drop 4 overlapping) (renew_session s id (str user)) n
        ≡ turns env
            (renewed_history env s user id h b)
            (drop 8 overlapping)
            (rotated env s user (cookie b.new_id b.token))
            n
  first-Renews user id h b n =
      first-turn env h (renew_session s id (str user)) (drop 5 overlapping) n
        (turn-delete env s user id h b)
      ∙ first-turn env (d env s user id h b ∷ h) (reissue s (str user)) (drop 6 overlapping) n
          (turn-sign env s user id h b)
      ∙ first-turn env (g env s user id h b ∷ d env s user id h b ∷ h)
          (issue (str user) b.token >>= rotated env s user) (drop 7 overlapping) n
          (turn-draw env s user id h b)
      ∙ first-turn env (uuid ∷ g env s user id h b ∷ d env s user id h b ∷ h)
          (save (str user) b.token b.new_id >>= rotated env s user) (drop 8 overlapping) n
          (turn-save env s user id h b)

  second-Renews :
      (user id : String) (h : List Call) (b : Renews env s user id h) (m : Auth Rotated)
      → turns env h (drop 8 overlapping) m (renew_session s id (str user))
        ≡ (m, rotated env s user (cookie b.new_id b.token), renewed_history env s user id h b)
  second-Renews user id h b m =
      second-turn env h (renew_session s id (str user)) (drop 9 overlapping) m
        (turn-delete env s user id h b)
      ∙ second-turn env (d env s user id h b ∷ h) (reissue s (str user)) (drop 10 overlapping) m
          (turn-sign env s user id h b)
      ∙ second-turn env (g env s user id h b ∷ d env s user id h b ∷ h)
          (issue (str user) b.token >>= rotated env s user) (drop 11 overlapping) m
          (turn-draw env s user id h b)
      ∙ second-turn env (uuid ∷ g env s user id h b ∷ d env s user id h b ∷ h)
          (save (str user) b.token b.new_id >>= rotated env s user) (drop 12 overlapping) m
          (turn-save env s user id h b)

  -- The sessions after a renewal.
  abbrev renewed_sessions : String → String → String → String → Sessions → Sessions
  renewed_sessions user id new_id token st =
      open_at new_id (record { user = user; token = token }) (close_at id st)

  Represents-renewed :
      (user id : String) (h : List Call) (st : Sessions) (b : Renews env s user id h)
      → Represents env s h st
      → Represents env s
          (renewed_history env s user id h b)
          (renewed_sessions user id b.new_id b.token st)
  Represents-renewed user id h st b r =
      let d' : Call = redis_del (session_key id) in
      let closed = Represents-close id r in
      Represents-open b.new_id (record { user = user; token = b.token }) (d' ∷ h, b.signed)
        (record { stored = closed.stored; signed = closed.signed })

  rotations-Doubled :
      (user id token : String) (h : List Call) (st : Sessions)
      → Represents env s h st
      → st id ≡ some (record { user = user; token = token })
      → Doubled env s user id st
          (turns env h overlapping (rotate_session s id token) (rotate_session s id token))
  rotations-Doubled user id token h st r live =
      let h₁ : List Call = redis_get (session_key id) ∷ verify_call s token ∷ h in
      let r₁ : Represents env s h₁ st = record { stored = r.stored; signed = r.signed } in
      let h₂ : List Call = redis_get (session_key id) ∷ verify_call s token ∷ h₁ in
      let r₂ : Represents env s h₂ st = record { stored = r.stored; signed = r.signed } in
      let a : Renews env s user id h₂ = Renews-by w user id h₂ in
      let h₃ : List Call = renewed_history env s user id h₂ a in
      let st₃ : Sessions = renewed_sessions user id a.new_id a.token st in
      let b : Renews env s user id h₃ = Renews-by w user id h₃ in
      let a_new : st a.new_id ≡ none = unused-none a.new_id r₂ a.unused in
      let b_new : st b.new_id ≡ none = unused-none b.new_id r₂ (λ was. b.unused (inr was)) in
      let distinct : a.new_id ≢ b.new_id = λ e. b.unused (inl (ap session_key e)) in
      let a_apart : (b.new_id == a.new_id) ≡ false = apart_is_false _ _ (λ e. distinct (sym e)) in
      let id_a : (id == a.new_id) ≡ false =
        apart_is_false _ _ (λ e. absurd (open_or_none st live a_new e)) in
      let id_b : (b.new_id == id) ≡ false =
        apart_is_false _ _ (λ e. absurd (open_or_none st live b_new (sym e))) in
      record {
        first_id = a.new_id;
        first_token = a.token;
        second_id = b.new_id;
        second_token = b.token;
        after = renewed_history env s user id h₃ b;
        ran =
            both-read user id token h (Reads-by w user id token h st r live)
              (Reads-by w user id token h₁ st r₁ live)
            ∙ first-Renews user id h₂ a (renew_session s id (str user))
            ∙ second-Renews user id h₃ b (rotated env s user (cookie a.new_id a.token));
        distinct = distinct;
        first_new = a_new;
        second_new = b_new;
        sessions = renewed_sessions user id b.new_id b.token st₃;
        held = Represents-renewed user id h₃ st₃ b (Represents-renewed user id h₂ st a r₂);
        first_open = rw (a_apart, id_a, eq_refl a.new_id) refl;
        second_open = rw (eq_refl b.new_id) refl;
        closed = rw (id_b, eq_refl id) refl;
      }

-- Of two refreshes that bring the cookie of one session at the same time, both may be accepted,
-- each with a new session of its own for the user, both of which are open in the end, while the
-- old session is closed: there is an order of their calls in which both read the session before
-- either deletes it; when Redis is a map whose keys do not expire, jose signs, and verifies what
-- it signed, and ids are new and hold no dot.
pub race-Doubled :
    (env : AuthEnv) (s : Secrets) (user id token : String) (h : List Call) (st : Sessions)
    → IsWorking env s
    → Represents env s h st
    → st id ≡ some (record { user = user; token = token })
    → Lacks b'.' id
    → Doubled env s user id st (
        turns env h overlapping
          (rotate_refresh_session s (cookie id token))
          (rotate_refresh_session s (cookie id token)))
race-Doubled env s user id token h st w r live plain_id =
    rw (created_dot env s id token plain_id) (rotations-Doubled w user id token h st r live)
