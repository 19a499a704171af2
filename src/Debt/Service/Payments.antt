-- ===== src/Debt/Service/Payments.antt =====
-- What a request to pay does to the rows of the debts and of the payments.
pub mod Ledger
pub mod Keys
pub mod Races
use aureum.Prelude.{
  ℕ, String, ◌≡◌, ◌≢◌, ◌⊎◌, inl, inr, refl, ap, sym, ◌∙◌, Option, none, some, List, [], ◌∷◌, ◌++◌,
  str_eq, if◌then◌else◌, arith, eq_iff, ok, err, Result-cases, Option-cases, Bool-cases,
}
use aureum.Prelude.Int.{ℤ, pos, ◌+ℤ◌, IsInt64, +ℤ_comm, +ℤ_assoc, int_laws}
use aureum.Debt.Errors.{Err}
use aureum.Debt.Account.{Debt, apply_payment}
use aureum.Debt.Account.Balance.{IsValid, apply_payment-IsValid, apply_payment_settles}
use aureum.Debt.Payment.{Payment, new_payment}
use aureum.Debt.Tables.{Tables, find_debt, update_debt, set_debt}
use aureum.Debt.Tables.Rows.{
  HasUniqueIds, HasUniqueIds-update_debt, find_debt-ids, find_debt_unique, find_debt-update_debt,
  find_debt-update_debt_ne,
}
use aureum.Debt.Service.{
  World, Faults, RegisterPaymentRequest, found, payment_of, payment_event, write_payment,
  payment_transaction, pay_debt, replayed, register_payment, cache_delete,
}

-- The sum of the payments that are recorded for a debt.
unfoldable pub recorded : String → List Payment → ℤ
recorded id [] = pos 0
recorded id (p ∷ ps) =
    let rest = recorded id ps in if str_eq p.debt_id id then p.amount +ℤ rest else rest

pub recorded-append :
    (id : String) (ps : List Payment) (p : Payment)
    → recorded id (ps ++ p ∷ [])
      ≡ (if str_eq p.debt_id id then recorded id ps +ℤ p.amount else recorded id ps)
unfolding recorded
recorded-append id [] p = ground (arith, +ℤ_comm p.amount (pos 0))
recorded-append id (q ∷ ps) p =
    ground (arith, +ℤ_assoc q.amount (recorded id ps) p.amount, recorded-append id ps p)

-- What a payment that was accepted has written.
pub record Written (now : ℕ) (req : RegisterPaymentRequest) (t t' : Tables) : Type 0 where
  pub d : Debt
  pub payment : Payment
  pub found_debt : find_debt req.debt_id req.user_id t.debts ≡ some d
  pub accepted : (apply_payment now req.amount d).1 ≡ none
  pub of_debt : payment.debt_id ≡ req.debt_id
  pub of_amount : payment.amount ≡ req.amount
  pub rows : t'.debts ≡ update_debt (apply_payment now req.amount d).0 t.debts
  pub added : t'.payments ≡ t.payments ++ payment ∷ []

payment_of-ok :
    (now : ℕ) (id : String) (req : RegisterPaymentRequest) {p : Payment}
    → payment_of now id req ≡ ok p
    → (p.debt_id ≡ req.debt_id) × (p.amount ≡ req.amount)
unfolding payment_of new_payment
payment_of-ok now id req h = ground arith

transaction-Written :
    (faults : Faults) (now : ℕ) (req : RegisterPaymentRequest) (p : Payment) (t : Tables)
    {t' : Tables}
    → p.debt_id ≡ req.debt_id
    → p.amount ≡ req.amount
    → payment_transaction faults now req p t ≡ ok t'
    → Written now req t t'
unfolding payment_transaction write_payment found
transaction-Written faults now req p t {t'} a b h =
    elim (Option-cases (find_debt req.debt_id req.user_id t.debts)) [
      | inl e ↦ absurd (ground arith)
      | inr (d, e) ↦ record {
        d = d;
        payment = p;
        found_debt = e;
        accepted = ground arith;
        of_debt = a;
        of_amount = b;
        rows = ground arith;
        added = ground arith;
      }
    ]

pub set_debt-apply_payment :
    (now : ℕ) (amount : ℤ) (d : Debt)
    → (set_debt (apply_payment now amount d).0 d ≡ (apply_payment now amount d).0)
      × ((apply_payment now amount d).0.id ≡ d.id)
unfolding apply_payment
set_debt-apply_payment now amount d = ground arith

-- A request leaves the world as it is, or writes an accepted payment and drops the debt of the
-- request from the cache.
pub register_payment-cases :
    (faults : Faults) (now : ℕ) (id : String) (req : RegisterPaymentRequest) (w : World)
    → let w' = (register_payment faults now id req w).0 in
      (w' ≡ w)
      ⊎ (Written now req w.tables w'.tables × (w'.cache ≡ cache_delete faults req.debt_id w.cache))
unfolding register_payment pay_debt
register_payment-cases faults now id req w =
    elim (Option-cases (replayed faults req.idempotency_key w)) [
      | inr (p, e) ↦ inl (ground arith)
      | inl e ↦ elim (Result-cases (payment_of now id req)) [
        | inr (x, e') ↦ inl (ground arith)
        | inl (p, e') ↦ elim (Result-cases (payment_transaction faults now req p w.tables)) [
          | inr (x, e'') ↦ inl (ground arith)
          | inl (t, e'') ↦
              let same : (register_payment faults now id req w).0.tables ≡ t = ground arith in
              let (a, b) = payment_of-ok now id req e' in
              inr (rw same (transaction-Written faults now req p w.tables a b e''), ground arith)
        ]
      ]
    ]

-- A request that returns an error leaves the world as it was.
pub register_payment_refused :
    (faults : Faults) (now : ℕ) (id : String) (req : RegisterPaymentRequest) (w : World) {e : Err}
    → (register_payment faults now id req w).1 ≡ err e
    → (register_payment faults now id req w).0 ≡ w
unfolding register_payment pay_debt
register_payment_refused faults now id req w h = ground arith
