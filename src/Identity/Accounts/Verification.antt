-- ===== src/Identity/Accounts/Verification.antt =====
-- One guess for each code, and what a verification does to an account.
use aureum.Prelude.{
  String, true, false, ◌≡◌, ◌≢◌, ◌⊎◌, inl, inr, ap, ◌∙◌, none, some, str_eq, arith, eq_iff,
  Option-cases, Bool-cases,
}
use aureum.Prelude.Dict.{lookup, remove, lookup-remove}
use aureum.Identity.Errors.{Err, otp_expired}
use aureum.Identity.Accounts.{
  World, Calls, new_email, take_otp, activate, verify_email, write_account,
}

activate-otps : (c : Calls) (email : String) (w : World) → (activate c email w).0.otps ≡ w.otps
unfolding activate write_account
activate-otps c email w = ground arith

-- A verification takes the code out of the store.
verify_email-otps :
    (c : Calls) (email otp : String) (w : World)
    → c.address_parses email ≡ true
    → c.store_fails ≡ false
    → (verify_email c email otp w).0.otps ≡ remove email w.otps
unfolding verify_email new_email take_otp
verify_email-otps c email otp w p f =
    ground (arith, p, f, activate-otps c email (record w { otps = remove email w.otps }))

verify_email-none :
    (c : Calls) (email otp : String) (w : World)
    → c.address_parses email ≡ true
    → lookup email w.otps ≡ none
    → (verify_email c email otp w).1 ≡ some otp_expired
unfolding verify_email new_email take_otp
verify_email-none c email otp w p e = ground (arith, p, e)

-- Where the store is reached: after one try with any code, right or wrong and accepted or refused,
-- every further try for the address is refused as expired, with whatever code and whatever the
-- other systems return.
pub verify_email_one_guess :
    (c c' : Calls) (email otp otp' : String) (w : World)
    → c.address_parses email ≡ true
    → c.store_fails ≡ false
    → c'.address_parses email ≡ true
    → (verify_email c' email otp' (verify_email c email otp w).0).1 ≡ some otp_expired
verify_email_one_guess c c' email otp otp' w p f p' =
    let gone : lookup email (verify_email c email otp w).0.otps ≡ none =
      ap (lookup email) (verify_email-otps c email otp w p f)
      ∙ lookup-remove email email w.otps
      ∙ ground (arith, eq_iff email email) in
    verify_email-none c' email otp' (verify_email c email otp w).0 p' gone

activate-refused :
    (c : Calls) (email : String) (w : World) {e : Err}
    → (activate c email w).1 ≡ some e
    → (activate c email w).0 ≡ w
unfolding activate write_account
activate-refused c email w h = ground (arith, h)

verify_email_stored :
    (c : Calls) (email otp : String) (w : World)
    → c.address_parses email ≡ true
    → c.store_fails ≡ false
    → let (w', e) = verify_email c email otp w in
      ((e ≡ none) × (lookup email w.otps ≡ some otp))
      ⊎ ((e ≢ none) × (w'.accounts ≡ w.accounts) × (w'.events ≡ w.events))
unfolding verify_email new_email take_otp
verify_email_stored c email otp w p f =
    let taken : World = record w { otps = remove email w.otps } in
    elim (Option-cases (lookup email w.otps)) [
      | inl n ↦ inr (ground (arith, p, f, n), ground (arith, p, f, n), ground (arith, p, f, n))
      | inr (s, n) ↦ elim (Bool-cases (str_eq s otp)) [
        | inr b ↦
            inr (ground (arith, p, f, n, b), ground (arith, p, f, n, b), ground (arith, p, f, n, b))
        | inl b ↦ elim (Option-cases (activate c email taken).1) [
          | inl a ↦ inl (ground (arith, p, f, n, b, a), n ∙ ap some ((eq_iff s otp).0 b))
          | inr (x, a) ↦
              let same = activate-refused c email taken a in
              inr (
                ground (arith, p, f, n, b, a),
                ground (arith, p, f, n, b, ap (λ (v : World). v.accounts) same),
                ground (arith, p, f, n, b, ap (λ (v : World). v.events) same),
              )
        ]
      ]
    ]

-- A verification that is refused leaves every account and event, and one that succeeds was given
-- the code that was stored for the address.
pub verify_email_accounts :
    (c : Calls) (email otp : String) (w : World)
    → let (w', e) = verify_email c email otp w in
      ((e ≡ none) × (lookup email w.otps ≡ some otp))
      ⊎ ((e ≢ none) × (w'.accounts ≡ w.accounts) × (w'.events ≡ w.events))
unfolding verify_email new_email take_otp
verify_email_accounts c email otp w = elim (Bool-cases (c.address_parses email)) [
  | inr p ↦ inr (ground (arith, p), ground (arith, p), ground (arith, p))
  | inl p ↦ elim (Bool-cases c.store_fails) [
    | inl f ↦ inr (ground (arith, p, f), ground (arith, p, f), ground (arith, p, f))
    | inr f ↦ verify_email_stored c email otp w p f
  ]
]
