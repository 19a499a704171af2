-- ===== src/Identity/Accounts/Tests.antt =====
-- Verifications and the second factor at a concrete account.
use aureum.Prelude.{◌≡◌, ◌≢◌, ◌⊎◌, refl, true, false, none, some, List, [], ◌∷◌}
use aureum.Prelude.Dict.{lookup, remove}
use aureum.Identity.Errors.{otp_expired}
use aureum.Identity.Accounts.{
  Account, unverified, active, World, Calls, verify_email, login, new_email, take_otp, activate,
  found, find_by_email, find_by_id, write_account, update_account, admit,
}
use aureum.Identity.Accounts.Verification.{verify_email_one_guess, verify_email_accounts}
use aureum.Identity.Accounts.Mfa.{
  setup_mfa, save_setup, verify_and_enable_mfa, take_setup, secret_of,
}
use aureum.Identity.Accounts.Mfa.Unreachable.{
  Request, login_request, verify_email_request, setup_request, enable_request, serve, serve_all,
  mfa_never_enabled,
}

abbrev account : Account
account = record {
  id = "u1";
  keycloak_id = "k1";
  email = "a@example.org";
  email_verified = false;
  status = unverified;
  mfa_enabled = false;
  last_login_at = none;
}

abbrev world : World
world = record {
  accounts = account ∷ [];
  events = [];
  otps = ("a@example.org", "123456") ∷ [];
  setups = [];
}

-- Every call succeeds, and every code is right.
abbrev calls : Calls
calls = record {
  address_parses = λ s. true;
  store_fails = false;
  find_fails = false;
  keycloak_accepts = true;
  event_fails = false;
  write_fails = false;
  mfa_feature = true;
  generated = some ("secret", "otpauth://totp");
  code_valid = λ c s. true;
  now = 100;
}

-- A wrong code, and then the right one.
verify_email_one_guess_example :
    (verify_email calls "a@example.org" "123456"
      (verify_email calls "a@example.org" "000000" world).0).1
    ≡ some otp_expired
verify_email_one_guess_example =
    verify_email_one_guess calls calls "a@example.org" "000000" "123456" world refl refl refl

verify_email_accounts_example :
    let (w', e) = verify_email calls "a@example.org" "123456" world in
    ((e ≡ none) × (lookup "a@example.org" world.otps ≡ some "123456"))
    ⊎ ((e ≢ none) × (w'.accounts ≡ world.accounts) × (w'.events ≡ world.events))
verify_email_accounts_example = verify_email_accounts calls "a@example.org" "123456" world

abbrev requests : List Request
requests =
    verify_email_request calls "a@example.org" "123456"
    ∷ login_request calls "a@example.org"
    ∷ setup_request calls "u1"
    ∷ enable_request calls "u1" "654321"
    ∷ []

abbrev logged_in_account : Account
logged_in_account = record account {
  email_verified = true;
  status = active;
  last_login_at = some 100;
}

requests_served : find_by_id "u1" (serve_all requests world).accounts ≡ some logged_in_account
unfolding serve_all serve verify_email new_email take_otp lookup remove activate found find_by_email
    find_by_id write_account update_account login admit setup_mfa save_setup verify_and_enable_mfa
    take_setup secret_of
requests_served = refl

mfa_never_enabled_example : logged_in_account.mfa_enabled ≡ false
mfa_never_enabled_example = mfa_never_enabled requests world "u1" (refl, tt) requests_served
