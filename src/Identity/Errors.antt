-- ===== src/Identity/Errors.antt =====
-- The errors of apps/identity-svc/internal/domain/authorization.go and errors.go that the
-- services return; `repository` is any error of a repository.
pub data Err : Type 0 where
  access_denied insufficient_role role_not_found permission_denied user_not_found : Err
  repository : Err
  invalid_credentials email_not_verified user_locked invalid_email invalid_otp otp_expired : Err
  mfa_already_enabled mfa_not_in_progress mfa_invalid_code feature_disabled : Err
