-- ===== src/Identity/Accounts/Mfa/Unreachable.antt =====
-- No request turns the second factor on.
use aureum.Prelude.{
  String, true, false, ◌≡◌, ◌≢◌, inl, inr, refl, Option, none, some, List, [], ◌∷◌, ok, arith,
  Option-cases, Result-cases,
}
use aureum.Prelude.Dict.{lookup, remove}
use aureum.Identity.Errors.{Err}
use aureum.Identity.Accounts.{
  Account, AccountEvent, active, email_verified_event, World, Calls, find_by_id, found,
  write_account, update_account, mfa_disabled_event, login, admit, verify_email, activate, take_otp,
  find_by_email, new_email,
}
use aureum.Identity.Accounts.Mfa.{
  setup_mfa, save_setup, verify_and_enable_mfa, take_setup, secret_of, disable_mfa,
}

-- A request to the service.
pub data Request : Type 0 where
  login_request : Calls → String → Request
  verify_email_request : Calls → String → String → Request
  setup_request : Calls → String → Request
  enable_request : Calls → String → String → Request
  disable_request : Calls → String → Request

unfoldable pub serve : Request → World → World × Option Err
serve (login_request c email) w = login c email w
serve (verify_email_request c email otp) w = verify_email c email otp w
serve (setup_request c id) w = setup_mfa c id w
serve (enable_request c id code) w = verify_and_enable_mfa c id code w
serve (disable_request c id) w = disable_mfa c id w

unfoldable pub serve_all : List Request → World → World
serve_all [] w = w
serve_all (q ∷ qs) w = serve_all qs (serve q w).0

-- A verification finds no secret, with any code: it says that no setup is in progress.
verify_and_enable_mfa-refuses :
    (c : Calls) (id code : String) (w : World)
    → ((verify_and_enable_mfa c id code w).1 ≢ none)
      × ((verify_and_enable_mfa c id code w).0.accounts ≡ w.accounts)
unfolding verify_and_enable_mfa take_setup secret_of
verify_and_enable_mfa-refuses c id code w = elim (Option-cases (lookup id w.setups)) [
  | inl e ↦ (ground (arith, e), ground (arith, e))
  | inr (s, e) ↦ (ground (arith, e), ground (arith, e))
]

-- No account has the second factor.
abbrev pub AllOff : List Account → Type 0
AllOff [] = Unit
AllOff (a ∷ rest) = (a.mfa_enabled ≡ false) × AllOff rest

find_by_id-AllOff :
    (id : String) (xs : List Account) {a : Account}
    → AllOff xs
    → find_by_id id xs ≡ some a
    → a.mfa_enabled ≡ false
unfolding find_by_id
find_by_id-AllOff id [] h e = cc
find_by_id-AllOff id (x ∷ xs) {a} h e = ground (arith, h, e, find_by_id-AllOff id xs {a = a})

find_by_email-AllOff :
    (email : String) (xs : List Account) {a : Account}
    → AllOff xs
    → find_by_email email xs ≡ some a
    → a.mfa_enabled ≡ false
unfolding find_by_email
find_by_email-AllOff email [] h e = cc
find_by_email-AllOff email (x ∷ xs) {a} h e =
    ground (arith, h, e, find_by_email-AllOff email xs {a = a})

update_account-AllOff :
    (a : Account) (xs : List Account)
    → a.mfa_enabled ≡ false
    → AllOff xs
    → AllOff (update_account a xs)
unfolding update_account
update_account-AllOff a [] e h = tt
update_account-AllOff a (x ∷ xs) e h = ground (arith, e, h, update_account-AllOff a xs)

found-ok : (c : Calls) (o : Option Account) {a : Account} → found c o ≡ ok a → o ≡ some a
unfolding found
found-ok c none h = ground (arith, h)
found-ok c (some x) h = ground (arith, h)

write_account-AllOff :
    (c : Calls) (a : Account) (e : AccountEvent) (w : World)
    → a.mfa_enabled ≡ false
    → AllOff w.accounts
    → AllOff (write_account c a e w).0.accounts
unfolding write_account
write_account-AllOff c a e w f h = ground (arith, f, h, update_account-AllOff a w.accounts)

admit-AllOff :
    (c : Calls) (a : Account) (w : World)
    → a.mfa_enabled ≡ false
    → AllOff w.accounts
    → AllOff (admit c a w).0.accounts
unfolding admit
admit-AllOff c a w f h =
    ground (arith, f, h, update_account-AllOff (record a { last_login_at = some c.now }) w.accounts)

login-AllOff :
    (c : Calls) (email : String) (w : World)
    → AllOff w.accounts
    → AllOff (login c email w).0.accounts
unfolding login new_email
login-AllOff c email w h = elim (Result-cases (found c (find_by_email email w.accounts))) [
  | inr (e, n) ↦ ground (arith, n, h)
  | inl (a, n) ↦
      let off =
        find_by_email-AllOff email w.accounts h (found-ok c (find_by_email email w.accounts) n) in
      ground (arith, n, h, admit-AllOff c a w off h)
]

activate-AllOff :
    (c : Calls) (email : String) (w : World)
    → AllOff w.accounts
    → AllOff (activate c email w).0.accounts
unfolding activate
activate-AllOff c email w h = elim (Result-cases (found c (find_by_email email w.accounts))) [
  | inr (e, n) ↦ ground (arith, n, h)
  | inl (a, n) ↦
      let off =
        find_by_email-AllOff email w.accounts h (found-ok c (find_by_email email w.accounts) n) in
      ground (
        arith,
        n,
        h,
        write_account-AllOff c (record a { email_verified = true; status = active })
            (email_verified_event a.id) w off h,
      )
]

verify_email-AllOff :
    (c : Calls) (email otp : String) (w : World)
    → AllOff w.accounts
    → AllOff (verify_email c email otp w).0.accounts
unfolding verify_email new_email take_otp
verify_email-AllOff c email otp w h =
    let later = activate-AllOff c email (record w { otps = remove email w.otps }) h in
    let now = activate-AllOff c email w h in ground (arith, h, later, now)

setup_mfa-accounts :
    (c : Calls) (id : String) (w : World) → (setup_mfa c id w).0.accounts ≡ w.accounts
unfolding setup_mfa save_setup
setup_mfa-accounts c id w = ground arith

disable_mfa-AllOff :
    (c : Calls) (id : String) (w : World)
    → AllOff w.accounts
    → AllOff (disable_mfa c id w).0.accounts
unfolding disable_mfa
disable_mfa-AllOff c id w h = elim (Result-cases (found c (find_by_id id w.accounts))) [
  | inr (e, n) ↦ ground (arith, n, h)
  | inl (a, n) ↦ ground (
    arith,
    n,
    h,
    write_account-AllOff c (record a { mfa_enabled = false }) (mfa_disabled_event id) w refl h,
  )
]

serve-AllOff : (q : Request) (w : World) → AllOff w.accounts → AllOff (serve q w).0.accounts
unfolding serve
serve-AllOff (login_request c email) w h = login-AllOff c email w h
serve-AllOff (verify_email_request c email otp) w h = verify_email-AllOff c email otp w h
serve-AllOff (setup_request c id) w h = rw (setup_mfa-accounts c id w) h
serve-AllOff (enable_request c id code) w h = rw ((verify_and_enable_mfa-refuses c id code w).1) h
serve-AllOff (disable_request c id) w h = disable_mfa-AllOff c id w h

serve_all-AllOff :
    (qs : List Request) (w : World) → AllOff w.accounts → AllOff (serve_all qs w).accounts
unfolding serve_all
serve_all-AllOff [] w h = h
serve_all-AllOff (q ∷ qs) w h = serve_all-AllOff qs (serve q w).0 (serve-AllOff q w h)

-- From a world where no account has the second factor, no requests to log in, to verify an address
-- and to set up, verify or disable the second factor, with any codes and whatever the other systems
-- return, lead to an account that has it: the store returns a pointer to a struct, and the
-- verification asks for a map.
pub mfa_never_enabled :
    (qs : List Request) (w : World) (id : String) {a : Account}
    → AllOff w.accounts
    → find_by_id id (serve_all qs w).accounts ≡ some a
    → a.mfa_enabled ≡ false
mfa_never_enabled qs w id h e =
    find_by_id-AllOff id (serve_all qs w).accounts (serve_all-AllOff qs w h) e
