-- ===== src/CreditCard/Invoice/Payments.antt =====
-- What a purchase and a payment do to the amounts of an invoice.
use aureum.Prelude.{ℕ, ◌≡◌, ◌↔◌, ◌≢◌, none, some, arith, ok, guards-ok}
use aureum.Prelude.Int.{ℤ, pos, ◌+ℤ◌, ◌-ℤ◌, ◌≤ℤ◌, ◌<ℤ◌, IsInt64, add64_exact, sub64_nonneg}
use aureum.CreditCard.Errors.{Err}
use aureum.CreditCard.Invoice.{
  CreateInvoiceInput, new_invoice, invoice_guards, fresh_invoice, Invoice, opened, paid,
  add_transaction_amount, pay,
}

-- The amounts of an invoice: what is paid lies between 0 and the total, and an invoice that is
-- marked paid is paid in full.
pub record IsValid (inv : Invoice) : Type 0 where
  pub total_range : IsInt64 inv.total_amount
  pub paid_nonneg : pos 0 ≤ℤ inv.paid_amount
  pub paid_le_total : inv.paid_amount ≤ℤ inv.total_amount
  pub paid_in_full : inv.status ≡ paid → inv.paid_amount ≡ inv.total_amount

-- What is still to be paid.
unfoldable pub outstanding : Invoice → ℤ
outstanding inv = inv.total_amount -ℤ inv.paid_amount

-- A new invoice is open, of the card and the month that are asked for, with nothing on it.
pub new_invoice-opened :
    (now : ℕ) (i : CreateInvoiceInput) {inv : Invoice}
    → new_invoice now i ≡ ok inv
    → (inv.status ≡ opened)
      × (inv.credit_card_id ≡ i.credit_card_id)
      × (inv.reference_month ≡ i.reference_month)
      × (inv.total_amount ≡ pos 0)
      × (inv.paid_amount ≡ pos 0)
unfolding new_invoice
new_invoice-opened now i h =
    let p = guards-ok (invoice_guards i) (ok (fresh_invoice now i)) h in ground arith

-- Every payment, accepted or refused, leaves a valid invoice valid.
pub pay-IsValid :
    (now : ℕ) (amount : ℤ) (inv : Invoice)
    → IsInt64 amount
    → IsValid inv
    → IsValid (pay now amount inv).0
unfolding pay ◌+ℤ◌ ◌-ℤ◌
pay-IsValid now amount inv ha v =
    ground
      (arith, sub64_nonneg inv.total_amount inv.paid_amount, add64_exact inv.paid_amount amount)

-- A payment into a valid invoice is accepted exactly when the invoice is not paid, the amount is
-- positive and no more than what is outstanding.
pub pay_accepts :
    (now : ℕ) (amount : ℤ) (inv : Invoice)
    → IsInt64 amount
    → IsValid inv
    → ((pay now amount inv).1 ≡ none)
      ↔ ((inv.status ≢ paid) × (pos 0 <ℤ amount) × (amount ≤ℤ outstanding inv))
unfolding pay outstanding ◌+ℤ◌ ◌-ℤ◌
pay_accepts now amount inv ha v =
    ground
      (arith, sub64_nonneg inv.total_amount inv.paid_amount, add64_exact inv.paid_amount amount)

-- An accepted payment lowers what is outstanding by its amount, keeps the total, and marks the
-- invoice paid exactly when nothing is left to pay.
pub pay_settles :
    (now : ℕ) (amount : ℤ) (inv : Invoice)
    → IsInt64 amount
    → IsValid inv
    → (pay now amount inv).1 ≡ none
    → let inv' = (pay now amount inv).0 in
      (outstanding inv' +ℤ amount ≡ outstanding inv)
      × (inv'.total_amount ≡ inv.total_amount)
      × ((inv'.status ≡ paid) ↔ (outstanding inv' ≡ pos 0))
unfolding pay outstanding ◌+ℤ◌ ◌-ℤ◌
pay_settles now amount inv ha v h =
    ground
      (arith, sub64_nonneg inv.total_amount inv.paid_amount, add64_exact inv.paid_amount amount)

-- A refused payment changes nothing.
pay_refused :
    (now : ℕ) (amount : ℤ) (inv : Invoice) {e : Err}
    → (pay now amount inv).1 ≡ some e
    → (pay now amount inv).0 ≡ inv
unfolding pay
pay_refused now amount inv h = ground arith

-- A purchase that an open invoice accepts raises the total and what is outstanding by its amount,
-- and keeps the invoice valid and open.
pub add_transaction_amount_lem :
    (now : ℕ) (amount : ℤ) (inv : Invoice)
    → IsInt64 amount
    → IsInt64 (inv.total_amount +ℤ amount)
    → IsValid inv
    → (add_transaction_amount now amount inv).1 ≡ none
    → let inv' = (add_transaction_amount now amount inv).0 in
      IsValid inv'
      × (inv'.status ≡ opened)
      × (outstanding inv' ≡ outstanding inv +ℤ amount)
      × (inv'.paid_amount ≡ inv.paid_amount)
unfolding add_transaction_amount outstanding ◌+ℤ◌ ◌-ℤ◌
add_transaction_amount_lem now amount inv ha fits v h =
    ground (arith, add64_exact inv.total_amount amount)
