-- ===== src/CreditCard/AddTransaction/Tests.antt =====
-- The theorems on a purchase at concrete tables.
use aureum.Prelude.{ℕ, ◌+◌, ◌≡◌, refl, false, none, some, [], ◌∷◌, ◌++◌, arith, ok, err}
use aureum.Prelude.Int.{pos, ◌+ℤ◌, ◌-ℤ◌, ◌≤ℤ◌, IsInt64}
use aureum.CreditCard.Errors.{credit_exceeded}
use aureum.CreditCard.Card.{CreditCard}
use aureum.CreditCard.Card.Limits
use aureum.CreditCard.Card.Limits.{used}
use aureum.CreditCard.Month.{is_valid_month, parse_month, next_reference_month, two_digits}
use aureum.CreditCard.Month.Calendar.{month_number}
use aureum.CreditCard.Invoice.{Invoice, opened, same, new_invoice, add_transaction_amount}
use aureum.CreditCard.Invoice.Payments
use aureum.CreditCard.Invoice.Payments.{outstanding}
use aureum.CreditCard.Purchase.{InvoiceTransaction, new_invoice_transaction}
use aureum.CreditCard.Samples.{card, invoice}
use aureum.CreditCard.Tables.{Tables, found, find_card, find_invoice, find_month}
use aureum.CreditCard.AddTransaction.{
  AddTransactionRequest, Faults, Ids, target, create_next, next_invoice, purchase, write,
  transaction, book, add_transaction,
}
use aureum.CreditCard.AddTransaction.Credit.{add_transaction_moves}
use aureum.CreditCard.AddTransaction.Rollover.{add_transaction_rolls_over}

abbrev open_invoice : Invoice
open_invoice = record invoice { id = "i2"; status = opened }

abbrev tables : Tables
tables = record {
  cards = card ∷ [];
  invoices = invoice ∷ open_invoice ∷ [];
  transactions = [];
  events = [];
}

abbrev no_faults : Faults
no_faults = record {
  find_invoice = false;
  rollover_card = false;
  find_month = false;
  begin = false;
  find_card = false;
  save_transaction = false;
  write_invoice = false;
  update_card = false;
  save_event = false;
  commit = false;
}

abbrev ids : Ids
ids = record { invoice = "i3"; transaction = "t1" }

abbrev request : AddTransactionRequest
request = record {
  invoice_id = "i2";
  user_id = "u1";
  description = "Shoes";
  amount = pos 250;
  category = "";
  transaction_date = "2025-12-01";
  installments = pos 0;
}

abbrev late_request : AddTransactionRequest
late_request = record request { invoice_id = "i1" }

abbrev large_request : AddTransactionRequest
large_request = record request { amount = pos 301 }

abbrev bought : InvoiceTransaction
bought = record {
  id = "t1";
  invoice_id = "i2";
  user_id = "u1";
  description = "Shoes";
  amount = pos 250;
  category = "other";
  transaction_date = "2025-12-01";
  installments = pos 1;
  created_at = 2;
}

goes_through : (add_transaction no_faults 2 ids request tables).1 ≡ ok bought
unfolding add_transaction found find_invoice find_card target same book purchase transaction write
    new_invoice_transaction add_transaction_amount
goes_through = refl

rolls_over :
    (add_transaction no_faults 2 ids late_request tables).1
    ≡ ok (record bought { invoice_id = "i3" })
unfolding add_transaction found find_invoice find_card find_month target same next_invoice
    create_next next_reference_month two_digits is_valid_month new_invoice book purchase transaction
    write new_invoice_transaction add_transaction_amount
rolls_over = refl

exceeds : (add_transaction no_faults 2 ids large_request tables).1 ≡ err credit_exceeded
unfolding add_transaction found find_invoice find_card target same book purchase transaction write
    new_invoice_transaction add_transaction_amount
exceeds = refl

open_invoice-found : find_invoice "i2" "u1" tables.invoices ≡ some open_invoice
unfolding find_invoice
open_invoice-found = refl

invoice-found : find_invoice "i1" "u1" tables.invoices ≡ some invoice
unfolding find_invoice
invoice-found = refl

card-found : find_card "c1" "u1" tables.cards ≡ some card
unfolding find_card
card-found = refl

no_next_month :
    find_month "c1" (next_reference_month invoice.reference_month) tables.invoices ≡ none
unfolding find_month next_reference_month
no_next_month = refl

open_invoice-IsValid : Payments.IsValid open_invoice
open_invoice-IsValid = ground arith

card-IsValid : Limits.IsValid card
unfolding ◌-ℤ◌
card-IsValid = ground arith

fits : IsInt64 (pos 600 +ℤ pos 250)
unfolding ◌+ℤ◌
fits = ground arith

add_transaction_moves_example :
    let t' = (add_transaction no_faults 2 ids request tables).0 in
    (inv' : Invoice) × (card' : CreditCard) × (find_invoice "i2" "u1" t'.invoices ≡ some inv')
    × (find_card "c1" "u1" t'.cards ≡ some card')
    × (outstanding inv' ≡ outstanding open_invoice +ℤ pos 250)
    × (used card' ≡ used card +ℤ pos 250)
    × (pos 0 ≤ℤ card'.available_credit)
    × Payments.IsValid inv'
    × Limits.IsValid card'
    × (pos 250 ≡ pos 250)
    × (t'.transactions ≡ [] ++ bought ∷ [])
add_transaction_moves_example =
    add_transaction_moves no_faults 2 ids request tables open_invoice card (ground arith) fits
      open_invoice-found refl card-found open_invoice-IsValid card-IsValid goes_through

month-parsed : parse_month invoice.reference_month ≡ some (2025, 12)
unfolding parse_month
month-parsed = refl

add_transaction_rolls_over_example :
    let t' = (add_transaction no_faults 2 ids late_request tables).0 in
    (inv : Invoice) × (card' : CreditCard) × (u : ℕ × ℕ) × (t'.invoices
      ≡ tables.invoices ++ inv ∷ [])
    × (find_card "c1" "u1" t'.cards ≡ some card')
    × (inv.status ≡ opened)
    × (inv.credit_card_id ≡ "c1")
    × (parse_month inv.reference_month ≡ some u)
    × (month_number u ≡ month_number (2025, 12) + 1)
    × (outstanding inv ≡ pos 250)
    × (used card' ≡ used card +ℤ pos 250)
    × ("i3" ≡ inv.id)
add_transaction_rolls_over_example =
    add_transaction_rolls_over no_faults 2 ids late_request tables invoice card (2025, 12)
      (ground arith) month-parsed (omega arith) invoice-found (ground arith) card-found
      no_next_month card-IsValid rolls_over
