-- ===== src/Identity/Accounts.antt =====
-- `Login`, `VerifyEmail`, `SetupMFA`, `VerifyAndEnableMFA` and `DisableMFA` of
-- apps/identity-svc/internal/application/auth_service.go, with the stores of
-- internal/infrastructure/cache. Keycloak, the TOTP library and `mail.ParseAddress` are parameters.
pub mod Verification
pub mod Mfa
mod Tests
use aureum.Prelude.{
  ℕ, ◌+◌, String, Bool, true, false, not, ◌&&◌, ◌||◌, Option, none, some, List, [], ◌∷◌, ◌++◌,
  str_eq, if◌then◌else◌, Result, ok, err,
}
use aureum.Prelude.Dict.{lookup, put, remove}
use aureum.Identity.Errors.{
  Err, user_not_found, repository, invalid_credentials, email_not_verified, user_locked,
  invalid_email, invalid_otp, otp_expired, mfa_already_enabled, mfa_not_in_progress,
  mfa_invalid_code, feature_disabled,
}

-- `UserStatus`, a string type: `other_status` is any text that no constant names.
pub data UserStatus : Type 0 where
  unverified active locked disabled : UserStatus
  other_status : String → UserStatus

-- `User`, with the fields that these methods read and write.
pub record Account : Type 0 where
  pub id : String
  pub keycloak_id : String
  pub email : String
  pub email_verified : Bool
  pub status : UserStatus
  pub mfa_enabled : Bool
  pub last_login_at : Option ℕ

-- The JSON object that `SetupMFA` saves, and `TOTPData`, into which it is read back: the names of
-- the field of the QR code differ.
pub record SetupJson : Type 0 where
  pub secret : String
  pub qr_code : String
  pub user_id : String
  pub expires_at : ℕ

pub record TotpData : Type 0 where
  pub secret : String
  pub qr_code_url : String
  pub user_id : String
  pub expires_at : ℕ

-- What an interface{} holds, by its dynamic type; a value of a map is a text or of another type.
pub data Dynamic : Type 0 where
  totp_data : TotpData → Dynamic
  text_map : List (String × Option String) → Dynamic

pub data AccountEvent : Type 0 where
  user_logged_in email_verified_event mfa_enabled_event mfa_disabled_event : String → AccountEvent

pub record World : Type 0 where
  pub accounts : List Account
  pub events : List AccountEvent
  pub otps : List (String × String)  -- by e-mail address
  pub setups : List (String × SetupJson)  -- by user

-- What the calls of other systems return during a request, and the flag "mfa".
pub record Calls : Type 0 where
  pub address_parses : String → Bool
  pub store_fails : Bool
  pub find_fails : Bool
  pub keycloak_accepts : Bool
  pub event_fails : Bool
  pub write_fails : Bool
  pub mfa_feature : Bool
  pub generated : Option (String × String)
  pub code_valid : String → String → Bool
  pub now : ℕ

-- `NewEmail`
unfoldable pub new_email : Calls → String → Result Err String
new_email c address = if c.address_parses address then ok address else err invalid_email

-- `FindByEmail` and `FindByID`
unfoldable pub find_by_email : String → List Account → Option Account
find_by_email email [] = none
find_by_email email (a ∷ rest) =
    let later = find_by_email email rest in if str_eq a.email email then some a else later

unfoldable pub find_by_id : String → List Account → Option Account
find_by_id id [] = none
find_by_id id (a ∷ rest) =
    let later = find_by_id id rest in if str_eq a.id id then some a else later

unfoldable pub found : Calls → Option Account → Result Err Account
found c none = if c.find_fails then err repository else err user_not_found
found c (some a) = if c.find_fails then err repository else ok a

-- `UserWriteRepository.Update`: the columns of an account.
unfoldable pub update_account : Account → List Account → List Account
update_account a [] = []
update_account a (x ∷ rest) =
    (if str_eq x.id a.id then record a { id = x.id; keycloak_id = x.keycloak_id } else x)
    ∷ update_account a rest

-- The transaction that updates an account and saves an event.
unfoldable pub write_account : Calls → Account → AccountEvent → World → World × Option Err
write_account c a event w = if c.write_fails then (w, some repository) else (
  record w { accounts = update_account a w.accounts; events = w.events ++ event ∷ [] },
  none,
)

-- `status == UserStatusLocked`
abbrev pub is_locked : UserStatus → Bool
is_locked locked = true
is_locked s = false

-- `Login`, whose transaction may fail. An event that could not be made is left out.
abbrev pub logged_in : Calls → Account → World → World
logged_in c a w = if c.write_fails then w else record w {
  accounts = update_account (record a { last_login_at = some c.now }) w.accounts;
  events = if c.event_fails then w.events else w.events ++ user_logged_in a.id ∷ [];
}

unfoldable pub admit : Calls → Account → World → World × Option Err
admit c a w =
    if is_locked a.status
    then (w, some user_locked)
    else if not a.email_verified
    then (w, some email_not_verified)
    else if not c.keycloak_accepts
    then (w, some invalid_credentials)
    else (logged_in c a w, none)

unfoldable pub login : Calls → String → World → World × Option Err
login c email w = elim (new_email c email) [
  | err e ↦ (w, some e)
  | ok address ↦ elim (found c (find_by_email email w.accounts)) [
    | err user_not_found ↦ (w, some invalid_credentials)
    | err e ↦ (w, some e)
    | ok a ↦ admit c a w
  ]
]

-- `EmailOTPStore.GetAndDelete`
unfoldable pub take_otp : Calls → String → World → World × Option String
take_otp c email w =
    if c.store_fails
    then (w, none)
    else (record w { otps = remove email w.otps }, lookup email w.otps)

-- `VerifyEmail`
unfoldable pub activate : Calls → String → World → World × Option Err
activate c email w = elim (found c (find_by_email email w.accounts)) [
  | err e ↦ (w, some invalid_otp)
  | ok a ↦
      if not c.keycloak_accepts
      then (w, some invalid_otp)
      else if c.event_fails
      then (w, some repository)
      else write_account c (record a { email_verified = true; status = active })
          (email_verified_event a.id) w
]

unfoldable pub verify_email : Calls → String → String → World → World × Option Err
verify_email c email otp w = elim (new_email c email) [
  | err e ↦ (w, some e)
  | ok address ↦
      let taken = take_otp c email w in
      elim (taken.1) [
        | none ↦ (taken.0, some otp_expired)
        | some stored ↦
            if not (str_eq stored otp)
            then (taken.0, some invalid_otp)
            else activate c email taken.0
      ]
]
