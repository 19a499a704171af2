-- ===== src/CreditCard/AddTransaction.antt =====
-- `Service.AddTransaction` of apps/creditcard-svc/internal/application/service.go.
pub mod Credit
pub mod Rollover
mod Tests
use aureum.Prelude.{
  ℕ, String, Bool, true, false, not, Option, none, some, List, [], ◌∷◌, ◌++◌, if◌then◌else◌, Result,
  ok, err, Bytes, Method, modify, fail_if, ◌>>◌,
}
use aureum.Prelude.Int.{ℤ, pos_part, ltb_ℤ, sub64}
use aureum.CreditCard.Errors.{Err, credit_exceeded, database}
use aureum.CreditCard.Card.{CreditCard}
use aureum.CreditCard.Month.{next_reference_month, two_digits}
use aureum.CreditCard.Invoice.{
  Invoice, CreateInvoiceInput, opened, same, new_invoice, add_transaction_amount,
}
use aureum.CreditCard.Purchase.{InvoiceTransaction, new_invoice_transaction}
use aureum.CreditCard.Tables.{
  with_tx, save_card, save_event, Tables, CreditCardEvent, transaction_added, found, find_card,
  update_card, find_invoice, update_invoice, find_month,
}

-- `AddTransactionRequest`, less the idempotency key.
pub record AddTransactionRequest : Type 0 where
  pub invoice_id : String
  pub user_id : String
  pub description : String
  pub amount : ℤ
  pub category : String
  pub transaction_date : String
  pub installments : ℤ

-- Which of the calls of the database fail. `find_card` is the query in the transaction.
pub record Faults : Type 0 where
  pub find_invoice : Bool
  pub rollover_card : Bool
  pub find_month : Bool
  pub begin : Bool
  pub find_card : Bool
  pub save_transaction : Bool
  pub write_invoice : Bool
  pub update_card : Bool
  pub save_event : Bool
  pub commit : Bool

-- What `uuid.New` returns for an invoice and for a transaction.
pub record Ids : Type 0 where
  pub invoice : String
  pub transaction : String

-- `fmt.Sprintf("%s-%02d", month, day)`, for the days 1 to 31 that a card has.
abbrev pub date : Bytes → ℤ → Bytes
date month day = month ++ (b'-' ∷ two_digits (pos_part day))

-- The invoice of the next month that the rollover creates.
abbrev pub rollover_input :
    AddTransactionRequest → Invoice → CreditCard → Bytes → CreateInvoiceInput
rollover_input req invoice card month = record {
  credit_card_id = invoice.credit_card_id;
  user_id = req.user_id;
  reference_month = month;
  closing_date = date month card.closing_day;
  due_date = date (next_reference_month month) card.due_day;
}

unfoldable pub create_next :
    ℕ → Ids → AddTransactionRequest → Invoice → CreditCard → Bytes → Result Err (Invoice × Bool)
create_next now ids req invoice card month =
    elim (new_invoice now (rollover_input req invoice card month)) [
      | err e ↦ err e
      | ok next ↦ ok (record next { id = ids.invoice }, true)
    ]

-- `FindByMonth`, and a new invoice if there is none.
unfoldable pub next_invoice :
    Faults
    → ℕ
    → Ids
    → AddTransactionRequest
    → Invoice
    → CreditCard
    → Tables
    → Result Err (Invoice × Bool)
next_invoice faults now ids req invoice card t =
    let month = next_reference_month invoice.reference_month in
    if faults.find_month
    then err database
    else elim (find_month invoice.credit_card_id month t.invoices) [
      | some next ↦ ok (next, false)
      | none ↦ create_next now ids req invoice card month
    ]

-- The invoice that takes the purchase, and whether it is new: the one that was asked for if it is
-- open, and else that of the next month.
unfoldable pub target :
    Faults → ℕ → Ids → AddTransactionRequest → Invoice → Tables → Result Err (Invoice × Bool)
unfolding same next_invoice
target faults now ids req invoice t =
    if same invoice.status opened
    then ok (invoice, false)
    else elim (found faults.rollover_card (find_card invoice.credit_card_id req.user_id t.cards)) [
      | err e ↦ err e
      | ok card ↦ next_invoice faults now ids req invoice card t
    ]

unfoldable pub purchase : ℕ → Ids → AddTransactionRequest → Invoice → Result Err InvoiceTransaction
unfolding new_invoice_transaction
purchase now ids req invoice =
    elim (new_invoice_transaction now record {
      invoice_id = invoice.id;
      user_id = req.user_id;
      description = req.description;
      amount = req.amount;
      category = req.category;
      transaction_date = req.transaction_date;
      installments = req.installments;
    }) [ err e ↦ err e | ok tx ↦ ok record tx { id = ids.transaction } ]

pub added_event : ℕ → InvoiceTransaction → Invoice → CreditCardEvent
added_event now tx invoice = transaction_added record {
  entity_id = tx.id;
  user_id = tx.user_id;
  invoice_id = tx.invoice_id;
  credit_card_id = invoice.credit_card_id;
  description = tx.description;
  amount = tx.amount;
  category = tx.category;
  transaction_date = tx.transaction_date;
  installments = tx.installments;
  timestamp = now;
}

-- `card.AvailableCredit -= req.Amount`
unfoldable pub take_credit : ℤ → CreditCard → CreditCard
take_credit amount card = record card { available_credit = sub64 card.available_credit amount }

-- An insert of a new invoice, or an update.
unfoldable pub write_invoice : Bool → Invoice → List Invoice → List Invoice
write_invoice is_new invoice rows =
    if is_new then rows ++ invoice ∷ [] else update_invoice invoice rows

-- The writes of the transaction, on a card that has the credit.
unfoldable pub write :
    Faults → ℕ → InvoiceTransaction → ℤ → Invoice × Bool → CreditCard → Method Tables Err
unfolding save_card save_event
write faults now tx amount (invoice, is_new) card =
    fail_if faults.save_transaction database
    >> modify (λ t. record t { transactions = t.transactions ++ tx ∷ [] })
    >> fail_if faults.write_invoice database
    >> modify (λ t. record t { invoices = write_invoice is_new invoice t.invoices })
    >> save_card faults.update_card (take_credit amount card)
    >> save_event faults.save_event (added_event now tx invoice)

-- The body of the transaction: the amount is added to the invoice, and the credit of the card is
-- checked. Its query of the card goes to the pool and reads the tables `read`.
unfoldable pub transaction :
    Faults
    → ℕ
    → AddTransactionRequest
    → InvoiceTransaction
    → Invoice × Bool
    → Tables
    → Method Tables Err
transaction faults now req tx (invoice, is_new) read t =
    let added = add_transaction_amount now req.amount invoice in
    elim (added.1) [
      | some e ↦ (t, some e)
      | none ↦
          elim (found faults.find_card (find_card invoice.credit_card_id req.user_id read.cards)) [
            | err e ↦ (t, some e)
            | ok card ↦
                if ltb_ℤ card.available_credit req.amount
                then (t, some credit_exceeded)
                else write faults now tx req.amount (added.0, is_new) card t
          ]
    ]

-- The purchase, where the transaction returned no error.
unfoldable pub answer : InvoiceTransaction → Option Err → Result Err InvoiceTransaction
answer tx none = ok tx
answer tx (some e) = err e

-- The part after the target is known.
unfoldable pub book :
    Faults
    → ℕ
    → Ids
    → AddTransactionRequest
    → Invoice × Bool
    → Tables
    → Tables × Result Err InvoiceTransaction
unfolding with_tx answer
book faults now ids req next t = elim (purchase now ids req next.0) [
  | err e ↦ (t, err e)
  | ok tx ↦
      let (t', e) = with_tx faults.begin faults.commit (transaction faults now req tx next t) t in
      (t', answer tx e)
]

-- `AddTransaction`, when no other request interleaves with it.
unfoldable pub add_transaction :
    Faults → ℕ → Ids → AddTransactionRequest → Tables → Tables × Result Err InvoiceTransaction
add_transaction faults now ids req t =
    elim (found faults.find_invoice (find_invoice req.invoice_id req.user_id t.invoices)) [
      | err e ↦ (t, err e)
      | ok invoice ↦ elim (target faults now ids req invoice t) [
        | err e ↦ (t, err e)
        | ok next ↦ book faults now ids req next t
      ]
    ]
