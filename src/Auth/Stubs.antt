-- ===== src/Auth/Stubs.antt =====
-- The providers that are not enabled (services/auth-service/src/mfa/totp.ts and
-- services/auth-service/src/providers/google.ts): every function throws.
use ai_gcm.Base.{String}
use ai_gcm.Effect.{Result, err, plain}

unfoldable pub generate_totp_secret : String → Result String
generate_totp_secret user_id = err (plain "MFA is not yet enabled. This is a Phase 3 feature.")

unfoldable pub verify_totp : (secret token : String) → Result String
verify_totp secret token = err (plain "MFA is not yet enabled. This is a Phase 3 feature.")

unfoldable pub get_google_auth_url : Result String
get_google_auth_url =
    err (plain "Google OAuth2 is not yet configured. Please use email/password login.")

unfoldable pub handle_google_callback : (code : String) → Result String
handle_google_callback code =
    err (plain "Google OAuth2 is not yet configured. This is a Phase 3 feature.")
