-- ===== src/CreditCard/PayInvoice/Races.antt =====
-- Two payments of an invoice at the same time: `PayInvoice` reads the invoice before its transaction
-- begins, and no query locks a row.
use aureum.Prelude.{ℕ, String, List, ◌≡◌, ap, ◌∙◌, refl, none, some, [], ◌∷◌, ◌++◌, arith, ok}
use aureum.Prelude.Int.{ℤ, pos, ◌+ℤ◌, ◌≤ℤ◌, ◌<ℤ◌, IsInt64}
use aureum.CreditCard.Card.{CreditCard}
use aureum.CreditCard.Card.Limits.{used}
use aureum.CreditCard.Card.Limits
use aureum.CreditCard.Invoice.{Invoice, pay}
use aureum.CreditCard.Invoice.Payments.{outstanding, pay_settles, pay_accepts}
use aureum.CreditCard.Invoice.Payments
use aureum.CreditCard.Tables.{
  Tables, find_card, update_card, find_invoice, update_invoice, set_invoice,
}
use aureum.CreditCard.Tables.Rows.{
  find_card-ids, find_invoice-ids, find_card-update_card, find_invoice-update_invoice,
}
use aureum.CreditCard.PayInvoice.{
  PayInvoiceRequest, restore_credit, paid_event, pay_invoice_at, pay_invoice,
}
use aureum.CreditCard.PayInvoice.Credit.{no_faults, pay-ids, rows_written, used_restored}

-- The second payment sets every column that the first one set.
pay_overwrites :
    (now later : ℕ) (req : PayInvoiceRequest) (inv : Invoice)
    → (pay now req.amount inv).1 ≡ none
    → set_invoice (pay later req.amount inv).0 (pay now req.amount inv).0
      ≡ (pay later req.amount inv).0
unfolding pay
pay_overwrites now later req inv h = ground arith

-- An accepted payment is accepted at any time.
pay_later :
    (now later : ℕ) (req : PayInvoiceRequest) (inv : Invoice)
    → (pay now req.amount inv).1 ≡ none
    → (pay later req.amount inv).1 ≡ none
unfolding pay
pay_later now later req inv h = ground arith

-- The tables after the writes of a payment.
abbrev paid_tables : ℕ → PayInvoiceRequest → Invoice → CreditCard → Tables → Tables
paid_tables now req inv card t = record t {
  cards = update_card (restore_credit req.amount card) t.cards;
  invoices = update_invoice (pay now req.amount inv).0 t.invoices;
  events = t.events ++ paid_event now req.amount (pay now req.amount inv).0 ∷ [];
}

-- A payment that no call of the database fails writes what it computes.
pay_invoice_at-writes :
    (now : ℕ) (req : PayInvoiceRequest) (first second t : Tables) (inv : Invoice)
    (card : CreditCard)
    → find_invoice req.id req.user_id first.invoices ≡ some inv
    → find_card inv.credit_card_id req.user_id second.cards ≡ some card
    → (pay now req.amount inv).1 ≡ none
    → pay_invoice_at no_faults now req first second t
      ≡ (paid_tables now req inv card t, ok (pay now req.amount inv).0)
unfolding pay_invoice_at
pay_invoice_at-writes now req first second t inv card e e' h =
    let p = pay-ids now req.amount inv in ground (arith, p)

card_written :
    (amount : ℤ) (id user_id : String) (c : CreditCard) (rs : List CreditCard)
    → find_card id user_id rs ≡ some c
    → find_card id user_id (update_card (restore_credit amount c) rs)
      ≡ some (restore_credit amount c)
unfolding restore_credit
card_written amount id user_id c rs e =
    find_card-update_card id user_id (restore_credit amount c) rs (find_card-ids id user_id rs e).0
      e

invoice_written :
    (now later : ℕ) (req : PayInvoiceRequest) (inv : Invoice) (rs : List Invoice)
    → (pay now req.amount inv).1 ≡ none
    → inv.id ≡ req.id
    → find_invoice req.id req.user_id rs ≡ some (pay now req.amount inv).0
    → find_invoice req.id req.user_id (update_invoice (pay later req.amount inv).0 rs)
      ≡ some (pay later req.amount inv).0
invoice_written now later req inv rs acc same e =
    find_invoice-update_invoice req.id req.user_id (pay later req.amount inv).0 rs
      ((pay-ids later req.amount inv).0 ∙ same) e
    ∙ ap some (pay_overwrites now later req inv acc)

-- Twice the amount is freed where the credit in use allows it.
used_twice :
    (amount : ℤ) (c : CreditCard)
    → Limits.IsValid c
    → pos 0 <ℤ amount
    → amount +ℤ amount ≤ℤ used c
    → used (restore_credit amount (restore_credit amount c)) +ℤ amount +ℤ amount ≡ used c
unfolding ◌+ℤ◌
used_twice amount c v p twice =
    let (v', once) = used_restored amount c v p (ground arith) in
    let (_, again) = used_restored amount (restore_credit amount c) v' p (ground (arith, once)) in
    ap (λ u. u +ℤ amount) again ∙ once

-- The second of two payments of the same amount reads the invoice before the first is committed, and
-- the card and its rows after that. If the invoice and its card are found and valid, the amount is of
-- int64 and accepted, and at least twice the amount is in use on the card, then both are confirmed,
-- and the invoice counts one of them: what is outstanding went down by the amount once, and the
-- credit in use by twice the amount.
pub pay_invoice_races :
    (now later : ℕ) (req : PayInvoiceRequest) (t : Tables) (inv : Invoice) (card : CreditCard)
    → IsInt64 req.amount
    → find_invoice req.id req.user_id t.invoices ≡ some inv
    → find_card inv.credit_card_id req.user_id t.cards ≡ some card
    → Payments.IsValid inv
    → Limits.IsValid card
    → (pay now req.amount inv).1 ≡ none
    → req.amount +ℤ req.amount ≤ℤ used card
    → let (t', first) = pay_invoice no_faults now req t in
      let (t'', second) = pay_invoice_at no_faults later req t t' t' in
      (i : Invoice) × (j : Invoice) × (c : CreditCard) × (first ≡ ok i)
      × (second ≡ ok j)
      × (find_invoice req.id req.user_id t''.invoices ≡ some j)
      × (find_card inv.credit_card_id req.user_id t''.cards ≡ some c)
      × (outstanding j +ℤ req.amount ≡ outstanding inv)
      × (used c +ℤ req.amount +ℤ req.amount ≡ used card)
unfolding pay_invoice
pay_invoice_races now later req t inv card ha e e' vi vc acc twice =
    let later_acc = pay_later now later req inv acc in
    let (_, positive, _) = (pay_accepts now req.amount inv ha vi).0 acc in
    let (lowered, _, _) = pay_settles later req.amount inv ha vi later_acc in
    let (row, card_row) = rows_written now req inv card t e e' in
    let t' = paid_tables now req inv card t in
    let card' = restore_credit req.amount card in
    rw
      (
        pay_invoice_at-writes now req t t t inv card e e' acc,
        pay_invoice_at-writes later req t t' t' inv card' e card_row later_acc,
      )
      (
        (pay now req.amount inv).0,
        (pay later req.amount inv).0,
        restore_credit req.amount card',
        refl,
        refl,
        invoice_written now later req inv t'.invoices acc
            (find_invoice-ids req.id req.user_id t.invoices e).0 row,
        card_written req.amount inv.credit_card_id req.user_id card' t'.cards card_row,
        lowered,
        used_twice req.amount card vc positive twice,
      )
