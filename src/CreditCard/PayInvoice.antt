-- ===== src/CreditCard/PayInvoice.antt =====
-- `Service.PayInvoice` of apps/creditcard-svc/internal/application/service.go.
pub mod Credit
pub mod Races
mod Tests
use aureum.Prelude.{
  ℕ, String, Bool, Option, none, some, List, [], ◌∷◌, ◌++◌, if◌then◌else◌, Result, ok, err, Method,
  modify, fail_if, ◌>>◌,
}
use aureum.Prelude.Int.{ℤ, ltb_ℤ, add64}
use aureum.CreditCard.Errors.{Err, not_found, database}
use aureum.CreditCard.Card.{CreditCard}
use aureum.CreditCard.Invoice.{Invoice, pay}
use aureum.CreditCard.Tables.{
  with_tx, save_card, save_event, Tables, CreditCardEvent, invoice_paid, found, find_card,
  update_card, find_invoice, update_invoice,
}

-- `PayInvoiceRequest`, less the idempotency key.
pub record PayInvoiceRequest : Type 0 where
  pub id : String
  pub user_id : String
  pub amount : ℤ

-- Which of the calls of the database fail.
pub record Faults : Type 0 where
  pub find_invoice : Bool
  pub begin : Bool
  pub update_invoice : Bool
  pub find_card : Bool
  pub update_card : Bool
  pub save_event : Bool
  pub commit : Bool

-- `card.AvailableCredit += req.Amount`, up to the limit.
unfoldable pub restore_credit : ℤ → CreditCard → CreditCard
restore_credit amount card =
    let available = add64 card.available_credit amount in
    record card {
      available_credit = if ltb_ℤ card.credit_limit available then card.credit_limit else available;
    }

pub paid_event : ℕ → ℤ → Invoice → CreditCardEvent
paid_event now amount invoice = invoice_paid record {
  entity_id = invoice.id;
  user_id = invoice.user_id;
  credit_card_id = invoice.credit_card_id;
  amount = amount;
  paid_amount = invoice.paid_amount;
  total_amount = invoice.total_amount;
  status = invoice.status;
  timestamp = now;
}

save_invoice : Bool → Invoice → Method Tables Err
save_invoice fails invoice =
    fail_if fails database
    >> modify (λ t. record t { invoices = update_invoice invoice t.invoices })

-- The rest of the transaction on the card that was found, or not.
restore : Faults → ℕ → ℤ → Invoice → Result Err CreditCard → Method Tables Err
unfolding restore_credit paid_event save_card save_event
restore faults now amount invoice (err e) t = (t, some e)
restore faults now amount invoice (ok card) t =
    (save_card faults.update_card (restore_credit amount card)
        >> save_event faults.save_event (paid_event now amount invoice))
      t

-- The body of the transaction, on the tables that it writes. Its query of the card goes to the pool
-- and not to the transaction, and so reads the tables `read` of what was committed at that time.
transaction : Faults → ℕ → PayInvoiceRequest → Invoice → Tables → Method Tables Err
unfolding found save_invoice restore
transaction faults now req invoice read =
    save_invoice faults.update_invoice invoice
    >> restore faults now req.amount invoice
        (found faults.find_card (find_card invoice.credit_card_id req.user_id read.cards))

-- The invoice, where the transaction returned no error.
answer : Invoice → Option Err → Result Err Invoice
answer invoice none = ok invoice
answer invoice (some e) = err e

-- `PayInvoice`, with the tables that the query of the invoice and the query of the card read, and
-- the tables that the writes meet.
unfoldable pub pay_invoice_at :
    Faults → ℕ → PayInvoiceRequest → Tables → Tables → Tables → Tables × Result Err Invoice
unfolding found transaction with_tx answer
pay_invoice_at faults now req first second t =
    elim (found faults.find_invoice (find_invoice req.id req.user_id first.invoices)) [
      | err e ↦ (t, err e)
      | ok invoice ↦
          let paid = pay now req.amount invoice in
          elim (paid.1) [
            | some e ↦ (t, err e)
            | none ↦
                let (t', e) =
                  with_tx faults.begin faults.commit (transaction faults now req paid.0 second) t in
                (t', answer paid.0 e)
          ]
    ]

-- A payment that no other request interleaves with.
unfoldable pub pay_invoice : Faults → ℕ → PayInvoiceRequest → Tables → Tables × Result Err Invoice
unfolding pay_invoice_at
pay_invoice faults now req t = pay_invoice_at faults now req t t t
