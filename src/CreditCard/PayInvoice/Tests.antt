-- ===== src/CreditCard/PayInvoice/Tests.antt =====
-- The theorems on a payment at concrete tables.
use aureum.Prelude.{◌≡◌, ◌≢◌, ◌↔◌, refl, true, none, some, [], ◌∷◌, ◌++◌, arith, ok, err, inl, inr}
use aureum.Prelude.Int.{IsInt64, pos, ◌+ℤ◌, ◌-ℤ◌, ◌≤ℤ◌, ◌<ℤ◌, add64, sub64, wrap64}
use aureum.CreditCard.Errors.{Err}
use aureum.CreditCard.Card.{CreditCard}
use aureum.CreditCard.Card.Limits
use aureum.CreditCard.Card.Limits.{used}
use aureum.CreditCard.Invoice.{Invoice, closed, paid, pay}
use aureum.CreditCard.Invoice.Payments
use aureum.CreditCard.Invoice.Payments.{outstanding}
use aureum.CreditCard.Tables.{Tables, find_card, find_invoice}
use aureum.CreditCard.Samples.{card, invoice}
use aureum.CreditCard.PayInvoice.{
  PayInvoiceRequest, Faults, pay_invoice, pay_invoice_at, paid_event,
}
use aureum.CreditCard.PayInvoice.Credit.{
  no_faults, used_after, pay_invoice_refused, pay_invoice_moves, pay_invoice_accepts,
}
use aureum.CreditCard.PayInvoice.Races.{pay_invoice_races}

-- A card and an invoice of other ids stand before them.
abbrev tables : Tables
tables = record {
  cards = record card { id = "c2" } ∷ card ∷ [];
  invoices = record invoice { id = "i2" } ∷ invoice ∷ [];
  transactions = [];
  events = [];
}

abbrev request : PayInvoiceRequest
request = record { id = "i1"; user_id = "u1"; amount = pos 300 }

abbrev no_commit : Faults
no_commit = record no_faults { commit = true }

invoice-found : find_invoice "i1" "u1" tables.invoices ≡ some invoice
unfolding find_invoice
invoice-found = refl

card-found : find_card "c1" "u1" tables.cards ≡ some card
unfolding find_card
card-found = refl

invoice-IsValid : Payments.IsValid invoice
invoice-IsValid = ground arith

card-IsValid : Limits.IsValid card
unfolding ◌-ℤ◌
card-IsValid = ground arith

restored_fits : IsInt64 (pos 300 +ℤ pos 300)
unfolding ◌+ℤ◌
restored_fits = ground arith

twice_in_use : pos 300 +ℤ pos 300 ≤ℤ used card
unfolding used ◌-ℤ◌ ◌+ℤ◌
twice_in_use = ground arith

paid_at : (pay 2 (pos 300) invoice).1 ≡ none
unfolding pay sub64 wrap64 ◌+ℤ◌ ◌-ℤ◌
paid_at = refl

abbrev paid_invoice : Invoice
unfolding pay add64 sub64 wrap64 ◌+ℤ◌ ◌-ℤ◌
paid_invoice = (pay 2 (pos 300) invoice).0

goes_through : (pay_invoice no_faults 2 request tables).1 ≡ ok paid_invoice
unfolding pay_invoice pay_invoice_at find_invoice find_card pay add64 sub64 wrap64 ◌+ℤ◌ ◌-ℤ◌
goes_through = refl

-- The commit fails after all statements of the transaction.
pay_invoice_refused_example : (e : Err) × (pay_invoice no_commit 2 request tables ≡ (tables, err e))
pay_invoice_refused_example =
    pay_invoice_refused no_commit 2 request tables (inl (inr (inr (inr (inr (inr (inr refl)))))))

pay_invoice_moves_example :
    let t' = (pay_invoice no_faults 2 request tables).0 in
    (card' : CreditCard) × (find_invoice "i1" "u1" t'.invoices ≡ some paid_invoice)
    × (find_card "c1" "u1" t'.cards ≡ some card')
    × (outstanding paid_invoice +ℤ pos 300 ≡ outstanding invoice)
    × (used card' ≡ used_after (pos 300) (used card))
    × Payments.IsValid paid_invoice
    × Limits.IsValid card'
    × (t'.events ≡ [] ++ paid_event 2 (pos 300) paid_invoice ∷ [])
pay_invoice_moves_example =
    pay_invoice_moves no_faults 2 request tables invoice card (ground arith) invoice-found
      card-found invoice-IsValid card-IsValid restored_fits goes_through

pay_invoice_accepts_example :
    ((r : Invoice) × ((pay_invoice no_faults 2 request tables).1 ≡ ok r)) ↔ (
      (closed ≢ paid)
      × (pos 0 <ℤ pos 300)
      × (pos 300 ≤ℤ outstanding invoice)
      × ((c : CreditCard) × (find_card "c1" "u1" tables.cards ≡ some c)))
pay_invoice_accepts_example =
    pay_invoice_accepts 2 request tables invoice (ground arith) invoice-found invoice-IsValid

pay_invoice_races_example :
    let (t', first) = pay_invoice no_faults 2 request tables in
    let (t'', second) = pay_invoice_at no_faults 3 request tables t' t' in
    (i : Invoice) × (j : Invoice) × (c : CreditCard) × (first ≡ ok i)
    × (second ≡ ok j)
    × (find_invoice "i1" "u1" t''.invoices ≡ some j)
    × (find_card "c1" "u1" t''.cards ≡ some c)
    × (outstanding j +ℤ pos 300 ≡ outstanding invoice)
    × (used c +ℤ pos 300 +ℤ pos 300 ≡ used card)
pay_invoice_races_example =
    pay_invoice_races 2 3 request tables invoice card (ground arith) invoice-found card-found
      invoice-IsValid card-IsValid paid_at twice_in_use
