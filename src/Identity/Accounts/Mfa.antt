-- ===== src/Identity/Accounts/Mfa.antt =====
-- The second factor: `SetupMFA`, `VerifyAndEnableMFA` and `DisableMFA` of auth_service.go, over
-- totp_store.go.
pub mod Unreachable
use aureum.Prelude.{
  ℕ, ◌+◌, String, Bool, true, false, not, ◌≡◌, ◌≢◌, ◌⊎◌, inl, inr, refl, ap, sym, ◌∙◌, Option, none,
  some, List, [], ◌∷◌, ◌++◌, str_eq, if◌then◌else◌, Result, ok, err, arith, Option-cases,
  Result-cases, Bool-cases,
}
use aureum.Prelude.Dict.{lookup, put, remove}
use aureum.Identity.Errors.{
  Err, repository, invalid_credentials, mfa_already_enabled, mfa_not_in_progress, mfa_invalid_code,
  feature_disabled, user_not_found,
}
use aureum.Identity.Accounts.{
  Account, AccountEvent, active, email_verified_event, SetupJson, TotpData, Dynamic, totp_data,
  text_map, World, Calls, find_by_id, found, write_account, update_account, mfa_enabled_event,
  mfa_disabled_event, login, admit, logged_in, verify_email, activate, take_otp, find_by_email,
  new_email,
}

-- `TOTPStore.Save` of the map that `SetupMFA` makes, which `json.Marshal` writes as an object.
unfoldable pub save_setup : Calls → String → SetupJson → World → World × Option Err
save_setup c user_id setup w =
    if c.store_fails
    then (w, some repository)
    else (record w { setups = put user_id setup w.setups }, none)

-- `SetupMFA`, with the secret and the URL that `totp.Generate` returns.
unfoldable pub setup_mfa : Calls → String → World → World × Option Err
setup_mfa c user_id w =
    if not c.mfa_feature
    then (w, some feature_disabled)
    else elim (found c (find_by_id user_id w.accounts)) [
      | err e ↦ (w, some e)
      | ok a ↦ if a.mfa_enabled then (w, some mfa_already_enabled) else elim c.generated [
        | none ↦ (w, some repository)
        | some (secret, url) ↦
            save_setup c user_id
              record { secret = secret; qr_code = url; user_id = user_id; expires_at = c.now + 600 }
              w
      ]
    ]

-- `json.Unmarshal` of the object into a `TOTPData`, whose `QRCodeURL` is the field "qr_code_url".
abbrev pub totp_of : SetupJson → TotpData
totp_of s = record {
  secret = s.secret;
  qr_code_url = "";
  user_id = s.user_id;
  expires_at = s.expires_at;
}

-- `TOTPStore.GetAndDelete`, which returns a pointer to a `TOTPData`.
unfoldable pub take_setup : Calls → String → World → World × Option Dynamic
take_setup c user_id w = if c.store_fails then (w, none) else (
  record w { setups = remove user_id w.setups },
  elim (lookup user_id w.setups) [ none ↦ none | some s ↦ some (totp_data (totp_of s)) ],
)

-- `data, ok := dataRaw.(map[string]interface{})` and `secret, ok := data["secret"].(string)`
unfoldable pub secret_of : Dynamic → Option String
secret_of (totp_data d) = none
secret_of (text_map m) = elim (lookup "secret" m) [ none ↦ none | some v ↦ v ]

unfoldable pub enable : Calls → String → World → World × Option Err
enable c user_id w = elim (found c (find_by_id user_id w.accounts)) [
  | err e ↦ (w, some e)
  | ok a ↦
      if c.event_fails
      then (w, some repository)
      else write_account c (record a { mfa_enabled = true }) (mfa_enabled_event user_id) w
]

-- `VerifyAndEnableMFA`
unfoldable pub verify_and_enable_mfa : Calls → String → String → World → World × Option Err
verify_and_enable_mfa c user_id code w =
    if not c.mfa_feature
    then (w, some feature_disabled)
    else let taken = take_setup c user_id w in
      elim (taken.1) [
        | none ↦ (taken.0, some mfa_not_in_progress)
        | some v ↦ elim (secret_of v) [
          | none ↦ (taken.0, some mfa_not_in_progress)
          | some secret ↦
              if not (c.code_valid code secret)
              then (taken.0, some mfa_invalid_code)
              else enable c user_id taken.0
        ]
      ]

-- `DisableMFA`
unfoldable pub disable_mfa : Calls → String → World → World × Option Err
disable_mfa c user_id w =
    if not c.mfa_feature
    then (w, some feature_disabled)
    else elim (found c (find_by_id user_id w.accounts)) [
      | err e ↦ (w, some e)
      | ok a ↦
          if not a.mfa_enabled
          then (w, some mfa_not_in_progress)
          else if not c.keycloak_accepts
          then (w, some invalid_credentials)
          else if c.event_fails
          then (w, some repository)
          else write_account c (record a { mfa_enabled = false }) (mfa_disabled_event user_id) w
    ]
