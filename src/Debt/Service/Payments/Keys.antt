-- ===== src/Debt/Service/Payments/Keys.antt =====
-- The idempotency keys of `RegisterPayment`.
use aureum.Prelude.{
  inl, inr, refl, ap, ◌∙◌, Option-cases, ℕ, String, ◌≡◌, false, none, some, List, is_empty, arith,
  eq_iff, ok,
}
use aureum.Prelude.Dict.{lookup}
use aureum.Debt.Payment.{Payment}
use aureum.Debt.Service.{
  World, Faults, Stored, payment_response, as_payment, RegisterPaymentRequest, key_store, read,
  replayed, pay_debt, register_payment,
}

-- A key that was stored is there, with the first payment that was stored under it.
lookup-key_store :
    (faults : Faults) (key : String) (p : Stored) (keys : List (String × Stored))
    → is_empty key ≡ false
    → faults.key_store ≡ false
    → lookup key keys ≡ none
    → lookup key (key_store faults key p keys) ≡ some p
unfolding key_store lookup
lookup-key_store faults key p keys n f e = ground (arith, eq_iff key key)

register_payment-stored :
    (faults : Faults) (now : ℕ) (id : String) (req : RegisterPaymentRequest) (w : World)
    {p : Payment}
    → is_empty req.idempotency_key ≡ false
    → faults.key_get ≡ false
    → faults.key_store ≡ false
    → (register_payment faults now id req w).1 ≡ ok p
    → (v : Stored) × (lookup req.idempotency_key (register_payment faults now id req w).0.keys
        ≡ some v)
      × (as_payment v ≡ p)
unfolding register_payment pay_debt replayed read
register_payment-stored faults now id req w {p} n g f h =
    elim (Option-cases (lookup req.idempotency_key w.keys)) [
      | inr (v, e) ↦ (v, ground (arith, n, g, e), ground (arith, n, g, e, h))
      | inl e ↦ (
        payment_response p,
        ground (
          arith,
          n,
          g,
          f,
          e,
          h,
          lookup-key_store faults req.idempotency_key (payment_response p) w.keys,
        ),
        refl,
      )
    ]

register_payment-replayed :
    (faults : Faults) (now : ℕ) (id : String) (req : RegisterPaymentRequest) (w : World)
    {v : Stored}
    → is_empty req.idempotency_key ≡ false
    → faults.key_get ≡ false
    → lookup req.idempotency_key w.keys ≡ some v
    → register_payment faults now id req w ≡ (w, ok (as_payment v))
unfolding register_payment replayed read
register_payment-replayed faults now id req w n g h = ground (arith, n, g, h)

-- Once a request with an idempotency key has been accepted, with the key stored, every request with
-- that key whose read of the key succeeds gets the same payment as its answer, and changes nothing.
pub register_payment_once :
    (faults faults' : Faults) (now now' : ℕ) (id id' : String) (req req' : RegisterPaymentRequest)
    (w : World) {p : Payment}
    → is_empty req.idempotency_key ≡ false
    → req'.idempotency_key ≡ req.idempotency_key
    → faults.key_get ≡ false
    → faults.key_store ≡ false
    → faults'.key_get ≡ false
    → (register_payment faults now id req w).1 ≡ ok p
    → let w' = (register_payment faults now id req w).0 in
      register_payment faults' now' id' req' w' ≡ (w', ok p)
register_payment_once faults faults' now now' id id' req req' w {p} n same g f g' h =
    let w' = (register_payment faults now id req w).0 in
    let (v, stored, same_answer) = register_payment-stored faults now id req w n g f h in
    register_payment-replayed faults' now' id' req' w' {v = v} (rw same n) g' (rw same stored)
    ∙ ap (λ a. (w', ok a)) same_answer
