-- ===== src/CreditCard/Tests.antt =====
-- The theorems on the credit cards at concrete cards, invoices and months.
use aureum.Prelude.{ℕ, ◌+◌, ◌≡◌, ◌↔◌, refl, false, none, some, [], ◌∷◌, arith, Bytes}
use aureum.Prelude.Int.{add64, sub64, wrap64, ℤ, pos, ◌+ℤ◌, ◌-ℤ◌, ◌<ℤ◌, ◌≤ℤ◌, IsInt64}
use aureum.CreditCard.Card.{
  CreateCreditCardInput, UpdateCreditCardInput, visa, credit, apply_update,
}
use aureum.CreditCard.Card.Limits
use aureum.CreditCard.Invoice.{
  Invoice, opened, closed, paid, pay, add_transaction_amount, transition_status,
}
use aureum.CreditCard.Invoice.Payments
use aureum.CreditCard.Invoice.Status.{Reach, here, next, payment, ◌⟶◌, invoice_transition_iff}
use aureum.CreditCard.Samples.{card, december, invoice}
use aureum.CreditCard.Month.{parse_month, next_reference_month}
use aureum.CreditCard.Month.Calendar

abbrev input : CreateCreditCardInput
input = record {
  user_id = "u1";
  name = "Blue";
  brand = visa;
  card_type = credit;
  last_four_digits = "1234";
  closing_day = pos 5;
  due_day = pos 15;
  credit_limit = pos 1000;
}

abbrev open_invoice : Invoice
open_invoice = record invoice { status = opened }

card-IsValid : Limits.IsValid card
unfolding ◌-ℤ◌
card-IsValid = ground arith

invoice-IsValid : Payments.IsValid invoice
invoice-IsValid = ground arith

open_invoice-IsValid : Payments.IsValid open_invoice
open_invoice-IsValid = ground arith

-- Two payments: the first leaves the invoice closed, the second pays it in full.
two_payments :
    ((pay 2 (pos 200) invoice).1 ≡ none)
    × ((pay 2 (pos 200) invoice).0.status ≡ closed)
    × ((pay 3 (pos 300) (pay 2 (pos 200) invoice).0).0.status ≡ paid)
unfolding pay add64 sub64 wrap64 ◌+ℤ◌ ◌-ℤ◌
two_payments = (refl, refl, refl)

pay_accepted : (pay 2 (pos 500) invoice).1 ≡ none
unfolding pay sub64 wrap64 ◌+ℤ◌ ◌-ℤ◌
pay_accepted = refl

purchase_accepted : (add_transaction_amount 2 (pos 50) open_invoice).1 ≡ none
unfolding add_transaction_amount
purchase_accepted = ground arith

purchase_fits : IsInt64 (pos 600 +ℤ pos 50)
unfolding ◌+ℤ◌
purchase_fits = ground arith

-- The invoice is paid in part after it has been closed.
late_payment : Reach invoice (pay 2 (pos 500) invoice).0
late_payment = next here (payment 2 (pos 500) (ground arith) pay_accepted)

invoice_transition_iff_example :
    ((transition_status 2 closed open_invoice).1 ≡ none) ↔ (opened ⟶ closed)
invoice_transition_iff_example = invoice_transition_iff 2 closed open_invoice

-- A request that sets every field.
abbrev request : UpdateCreditCardInput
request = record {
  id = "c1";
  user_id = "u1";
  name = some "Red";
  closing_day = some (pos 9);
  due_day = some (pos 20);
  credit_limit = some (pos 800);
  active = some false;
}

request-range : (v : ℤ) → request.credit_limit ≡ some v → IsInt64 v × (Limits.used card ≤ℤ v)
unfolding Limits.used ◌-ℤ◌
request-range v e = ground arith

apply_update_keeps_example :
    Limits.IsValid (apply_update 2 request card).0
    × (Limits.used (apply_update 2 request card).0 ≡ Limits.used card)
apply_update_keeps_example = Limits.apply_update_keeps 2 request card request-range card-IsValid

limit_below_use : pos 500 <ℤ Limits.used card
unfolding Limits.used ◌-ℤ◌
limit_below_use = ground arith

december-parsed : parse_month december ≡ some (2025, 12)
unfolding parse_month
december-parsed = refl

after_december : next_reference_month december ≡ b'2' ∷ b'0' ∷ b'2' ∷ b'6' ∷ b'-' ∷ b'0' ∷ b'1' ∷ []
unfolding next_reference_month
after_december = refl

next_reference_month_lem_example :
    (u : ℕ × ℕ) × (parse_month (next_reference_month december) ≡ some u)
    × (Calendar.month_number u ≡ Calendar.month_number (2025, 12) + 1)
next_reference_month_lem_example =
    Calendar.next_reference_month_lem december (2025, 12) december-parsed (omega arith)

abbrev lettered : Bytes
lettered = b'2' ∷ b'0' ∷ b'z' ∷ b'z' ∷ b'-' ∷ b'0' ∷ b'1' ∷ []
