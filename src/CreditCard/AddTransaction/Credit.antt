-- ===== src/CreditCard/AddTransaction/Credit.antt =====
-- What a purchase does to the rows of the invoice, of its card, of the purchases and of the outbox.
use aureum.Prelude.{
  ℕ, String, List, Bool, ◌≡◌, refl, sym, ap, ◌∙◌, some, none, false, [], ◌∷◌, ◌++◌, arith, ok, err,
}
use aureum.Prelude.Int.{ℤ, pos, ◌+ℤ◌, ◌-ℤ◌, ◌≤ℤ◌, ◌<ℤ◌, IsInt64, sub64_nonneg}
use aureum.CreditCard.Errors.{Err}
use aureum.CreditCard.Card.{CreditCard}
use aureum.CreditCard.Card.Limits.{used}
use aureum.CreditCard.Card.Limits
use aureum.CreditCard.Invoice.{Invoice, opened, add_transaction_amount}
use aureum.CreditCard.Invoice.Payments.{outstanding, add_transaction_amount_lem}
use aureum.CreditCard.Invoice.Payments
use aureum.CreditCard.Purchase.{InvoiceTransaction}
use aureum.CreditCard.Tables.{
  with_tx, save_card, save_event, Tables, found, find_card, update_card, find_invoice, set_invoice,
}
use aureum.CreditCard.Tables.Rows.{
  find_card-ids, find_invoice-ids, find_card-update_card, find_invoice-update_invoice,
}
use aureum.CreditCard.AddTransaction.{
  answer, AddTransactionRequest, Faults, Ids, target, transaction, write, book, purchase,
  added_event, take_credit, write_invoice, add_transaction,
}

-- A purchase that is refused, by a rule or by any failure of the database, leaves all tables as they
-- were.
pub add_transaction_refused :
    (faults : Faults) (now : ℕ) (ids : Ids) (req : AddTransactionRequest) (t : Tables) {e : Err}
    → (add_transaction faults now ids req t).1 ≡ err e
    → (add_transaction faults now ids req t).0 ≡ t
unfolding add_transaction book
add_transaction_refused faults now ids req t h = ground arith

pub purchase-ok :
    (now : ℕ) (ids : Ids) (req : AddTransactionRequest) (inv : Invoice) {tx : InvoiceTransaction}
    → purchase now ids req inv ≡ ok tx
    → (tx.id ≡ ids.transaction)
      × (tx.invoice_id ≡ inv.id)
      × (tx.amount ≡ req.amount)
      × (pos 0 <ℤ req.amount)
unfolding purchase
purchase-ok now ids req inv h = ground arith

-- A transaction that is committed has written all rows.
transaction-ok :
    (faults : Faults) (now : ℕ) (req : AddTransactionRequest) (tx : InvoiceTransaction)
    (inv : Invoice) (is_new : Bool) (t : Tables) (card : CreditCard)
    → find_card inv.credit_card_id req.user_id t.cards ≡ some card
    → let r =
        with_tx faults.begin faults.commit (transaction faults now req tx (inv, is_new) t) t in
      r.1 ≡ none
      → ((add_transaction_amount now req.amount inv).1 ≡ none)
        × (req.amount ≤ℤ card.available_credit)
        × (r.0 ≡ record {
          cards = update_card (take_credit req.amount card) t.cards;
          invoices = write_invoice is_new (add_transaction_amount now req.amount inv).0 t.invoices;
          transactions = t.transactions ++ tx ∷ [];
          events =
              t.events ++ added_event now tx (add_transaction_amount now req.amount inv).0 ∷ [];
        })
unfolding transaction with_tx write save_card save_event found
transaction-ok faults now req tx inv is_new t card e h = ground arith

book-ok :
    (faults : Faults) (now : ℕ) (ids : Ids) (req : AddTransactionRequest) (next : Invoice × Bool)
    (t : Tables) {tx : InvoiceTransaction}
    → (book faults now ids req next t).1 ≡ ok tx
    → let r = with_tx faults.begin faults.commit (transaction faults now req tx next t) t in
      (purchase now ids req next.0 ≡ ok tx)
      × (r.1 ≡ none)
      × ((book faults now ids req next t).0 ≡ r.0)
unfolding book answer
book-ok faults now ids req next t h = ground arith

booked :
    (faults : Faults) (now : ℕ) (ids : Ids) (req : AddTransactionRequest) (t : Tables)
    {tx : InvoiceTransaction} (asked : Invoice) (next : Invoice × Bool)
    → find_invoice req.invoice_id req.user_id t.invoices ≡ some asked
    → target faults now ids req asked t ≡ ok next
    → (add_transaction faults now ids req t).1 ≡ ok tx
    → add_transaction faults now ids req t ≡ book faults now ids req next t
unfolding add_transaction found
booked faults now ids req t asked next e g h = ground arith

-- What was written, when the purchase has gone through.
pub add_transaction-ok :
    (faults : Faults) (now : ℕ) (ids : Ids) (req : AddTransactionRequest) (t : Tables)
    {tx : InvoiceTransaction} (asked inv : Invoice) (is_new : Bool) (card : CreditCard)
    → find_invoice req.invoice_id req.user_id t.invoices ≡ some asked
    → target faults now ids req asked t ≡ ok (inv, is_new)
    → find_card inv.credit_card_id req.user_id t.cards ≡ some card
    → (add_transaction faults now ids req t).1 ≡ ok tx
    → (purchase now ids req inv ≡ ok tx)
      × ((add_transaction_amount now req.amount inv).1 ≡ none)
      × (req.amount ≤ℤ card.available_credit)
      × ((add_transaction faults now ids req t).0 ≡ record {
        cards = update_card (take_credit req.amount card) t.cards;
        invoices = write_invoice is_new (add_transaction_amount now req.amount inv).0 t.invoices;
        transactions = t.transactions ++ tx ∷ [];
        events = t.events ++ added_event now tx (add_transaction_amount now req.amount inv).0 ∷ [];
      })
add_transaction-ok faults now ids req t {tx} asked inv is_new card e g e' h =
    let same = booked faults now ids req t asked (inv, is_new) e g h in
    let (bought, committed, written) =
      book-ok faults now ids req (inv, is_new) t (ap (λ r. r.1) (sym same) ∙ h) in
    let (acc, covered, rows) = transaction-ok faults now req tx inv is_new t card e' committed in
    (bought, acc, covered, ap (λ r. r.0) same ∙ written ∙ rows)

-- A valid card gives the credit of a purchase.
pub used_taken :
    (amount : ℤ) (c : CreditCard)
    → Limits.IsValid c
    → pos 0 <ℤ amount
    → amount ≤ℤ c.available_credit
    → Limits.IsValid (take_credit amount c)
      × (used (take_credit amount c) ≡ used c +ℤ amount)
      × (pos 0 ≤ℤ (take_credit amount c).available_credit)
unfolding take_credit used ◌-ℤ◌ ◌+ℤ◌
used_taken amount c v p le = ground (arith, sub64_nonneg c.available_credit amount)

pub card_taken :
    (amount : ℤ) (id user_id : String) (c : CreditCard) (rs : List CreditCard)
    → find_card id user_id rs ≡ some c
    → find_card id user_id (update_card (take_credit amount c) rs) ≡ some (take_credit amount c)
unfolding take_credit
card_taken amount id user_id c rs e =
    find_card-update_card id user_id (take_credit amount c) rs (find_card-ids id user_id rs e).0 e

add_transaction_amount-row :
    (now : ℕ) (amount : ℤ) (inv : Invoice)
    → let inv' = (add_transaction_amount now amount inv).0 in
      (set_invoice inv' inv ≡ inv') × (inv'.id ≡ inv.id)
unfolding add_transaction_amount
add_transaction_amount-row now amount inv = ground arith

invoice_raised :
    (now : ℕ) (amount : ℤ) (id user_id : String) (inv : Invoice) (rs : List Invoice)
    → find_invoice id user_id rs ≡ some inv
    → find_invoice id user_id (write_invoice false (add_transaction_amount now amount inv).0 rs)
      ≡ some (add_transaction_amount now amount inv).0
unfolding write_invoice
invoice_raised now amount id user_id inv rs e =
    let inv' = (add_transaction_amount now amount inv).0 in
    let (row, same) = add_transaction_amount-row now amount inv in
    find_invoice-update_invoice id user_id inv' rs (same ∙ (find_invoice-ids id user_id rs e).0) e
    ∙ ap some row

target-opened :
    (faults : Faults) (now : ℕ) (ids : Ids) (req : AddTransactionRequest) (inv : Invoice)
    (t : Tables)
    → inv.status ≡ opened
    → target faults now ids req inv t ≡ ok (inv, false)
unfolding target
target-opened faults now ids req inv t h = ground arith

-- A purchase on an open invoice that goes through, where the invoice and its card are found and valid and
-- the amount and the new total of the invoice are int64, raises what is outstanding on the invoice and
-- the credit in use of the card by the same amount, leaves no less than no credit available, keeps
-- both rows valid, and adds one row for the purchase.
pub add_transaction_moves :
    (faults : Faults) (now : ℕ) (ids : Ids) (req : AddTransactionRequest) (t : Tables)
    (inv : Invoice) (card : CreditCard) {tx : InvoiceTransaction}
    → IsInt64 req.amount
    → IsInt64 (inv.total_amount +ℤ req.amount)
    → find_invoice req.invoice_id req.user_id t.invoices ≡ some inv
    → inv.status ≡ opened
    → find_card inv.credit_card_id req.user_id t.cards ≡ some card
    → Payments.IsValid inv
    → Limits.IsValid card
    → (add_transaction faults now ids req t).1 ≡ ok tx
    → let t' = (add_transaction faults now ids req t).0 in
      (inv' : Invoice) × (card' : CreditCard) × (find_invoice req.invoice_id req.user_id t'.invoices
        ≡ some inv')
      × (find_card inv.credit_card_id req.user_id t'.cards ≡ some card')
      × (outstanding inv' ≡ outstanding inv +ℤ req.amount)
      × (used card' ≡ used card +ℤ req.amount)
      × (pos 0 ≤ℤ card'.available_credit)
      × Payments.IsValid inv'
      × Limits.IsValid card'
      × (tx.amount ≡ req.amount)
      × (t'.transactions ≡ t.transactions ++ tx ∷ [])
add_transaction_moves faults now ids req t inv card {tx} ha fits e st e' vi vc h =
    let (bought, acc, covered, written) =
      add_transaction-ok faults now ids req t inv inv false card e
        (target-opened faults now ids req inv t st) e' h in
    let (_, _, amount, positive) = purchase-ok now ids req inv bought in
    let (vi', _, raised, _) = add_transaction_amount_lem now req.amount inv ha fits vi acc in
    let (vc', taken, left) = used_taken req.amount card vc positive covered in
    rw written (
      (add_transaction_amount now req.amount inv).0,
      take_credit req.amount card,
      invoice_raised now req.amount req.invoice_id req.user_id inv t.invoices e,
      card_taken req.amount inv.credit_card_id req.user_id card t.cards e',
      raised,
      taken,
      left,
      vi',
      vc',
      amount,
      refl,
    )
