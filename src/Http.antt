-- ===== src/Http.antt =====
-- A reply of a Fastify handler: its status and the value that is sent, undefined for none.
use ai_gcm.Base.{ℕ, String, [], ◌∷◌}
use ai_gcm.Js.{Value, object, str}

pub record Response : Type 0 where
  pub status : ℕ
  pub body : Value

abbrev pub reply : ℕ → Value → Response
reply status body = record { status = status; body = body }

-- `reply.status(n).send({ error: message })`.
abbrev pub error_reply : ℕ → String → Response
error_reply status message = reply status (object (("error", str message) ∷ []))
