-- ===== src/CreditCard/AddTransaction/Rollover.antt =====
-- A purchase on an invoice that is not open goes to the invoice of the next month.
use aureum.Prelude.{
  ℕ, ◌+◌, ◌<◌, ◌≡◌, ◌≢◌, refl, ap, sym, ◌∙◌, Bool, true, some, none, [], ◌∷◌, ◌++◌, inl, inr, arith,
  ok, Result-cases,
}
use aureum.Prelude.Int.{ℤ, pos, ◌+ℤ◌, ◌-ℤ◌, IsInt64, add64_exact}
use aureum.CreditCard.Card.{CreditCard}
use aureum.CreditCard.Card.Limits.{used}
use aureum.CreditCard.Card.Limits
use aureum.CreditCard.Month.{next_reference_month, parse_month}
use aureum.CreditCard.Month.Calendar.{month_number, next_reference_month_lem}
use aureum.CreditCard.Invoice.{Invoice, opened, new_invoice, add_transaction_amount}
use aureum.CreditCard.Invoice.Payments.{outstanding, new_invoice-opened}
use aureum.CreditCard.Purchase.{InvoiceTransaction}
use aureum.CreditCard.Tables.{Tables, found, find_card, find_invoice, find_month}
use aureum.CreditCard.AddTransaction.{
  AddTransactionRequest, Faults, Ids, target, rollover_input, create_next, next_invoice,
  take_credit, write_invoice, add_transaction,
}
use aureum.CreditCard.AddTransaction.Credit.{
  add_transaction-ok, purchase-ok, used_taken, card_taken,
}

-- A fresh invoice of a card for a month.
record IsNext (ids : Ids) (asked : Invoice) (inv : Invoice) : Type 0 where
  id_ok : inv.id ≡ ids.invoice
  card_ok : inv.credit_card_id ≡ asked.credit_card_id
  month_ok : inv.reference_month ≡ next_reference_month asked.reference_month
  status_ok : inv.status ≡ opened
  total_ok : inv.total_amount ≡ pos 0
  paid_ok : inv.paid_amount ≡ pos 0

create_next-IsNext :
    (now : ℕ) (ids : Ids) (req : AddTransactionRequest) (asked : Invoice) (card : CreditCard)
    {next : Invoice × Bool}
    → create_next now ids req asked card (next_reference_month asked.reference_month) ≡ ok next
    → IsNext ids asked next.0 × (next.1 ≡ true)
unfolding create_next
create_next-IsNext now ids req asked card h =
    let i = rollover_input req asked card (next_reference_month asked.reference_month) in
    elim (Result-cases (new_invoice now i)) [
      | inl (inv, r) ↦ let p = new_invoice-opened now i r in ground arith
      | inr (x, r) ↦ absurd (ground arith)
    ]

target-next :
    (faults : Faults) (now : ℕ) (ids : Ids) (req : AddTransactionRequest) (asked : Invoice)
    (card : CreditCard) (t : Tables) {next : Invoice × Bool}
    → asked.status ≢ opened
    → find_card asked.credit_card_id req.user_id t.cards ≡ some card
    → find_month asked.credit_card_id (next_reference_month asked.reference_month) t.invoices ≡ none
    → target faults now ids req asked t ≡ ok next
    → create_next now ids req asked card (next_reference_month asked.reference_month) ≡ ok next
unfolding target next_invoice found
target-next faults now ids req asked card t st e m h = ground arith

target-ok :
    (faults : Faults) (now : ℕ) (ids : Ids) (req : AddTransactionRequest) (asked : Invoice)
    (t : Tables) {tx : InvoiceTransaction}
    → find_invoice req.invoice_id req.user_id t.invoices ≡ some asked
    → (add_transaction faults now ids req t).1 ≡ ok tx
    → (next : Invoice × Bool) × (target faults now ids req asked t ≡ ok next)
unfolding add_transaction found
target-ok faults now ids req asked t e h = elim (Result-cases (target faults now ids req asked t)) [
  | inl r ↦ r
  | inr (x, r) ↦ absurd (ground arith)
]

first_purchase :
    (now : ℕ) (amount : ℤ) (ids : Ids) (asked inv : Invoice)
    → IsInt64 amount
    → IsNext ids asked inv
    → (add_transaction_amount now amount inv).1 ≡ none
    → let inv' = (add_transaction_amount now amount inv).0 in
      (inv'.status ≡ opened)
      × (inv'.credit_card_id ≡ asked.credit_card_id)
      × (inv'.reference_month ≡ next_reference_month asked.reference_month)
      × (inv'.id ≡ inv.id)
      × (outstanding inv' ≡ amount)
unfolding add_transaction_amount outstanding ◌+ℤ◌ ◌-ℤ◌
first_purchase now amount ids asked inv ha v h = ground (arith, add64_exact (pos 0) amount)

write_invoice-new :
    (inv : Invoice) (t : Tables) → write_invoice true inv t.invoices ≡ t.invoices ++ inv ∷ []
unfolding write_invoice
write_invoice-new inv t = refl

-- A purchase that goes through on an invoice that is not open, of a month of the calendar before the
-- year 9999, where its valid card is found and has no invoice for the next month, leaves the rows of all
-- invoices as they are and adds an open one, whose month is the one that follows in the calendar, with
-- the amount of the purchase, an int64, outstanding; the credit in use of the card rises by the same
-- amount.
pub add_transaction_rolls_over :
    (faults : Faults) (now : ℕ) (ids : Ids) (req : AddTransactionRequest) (t : Tables)
    (asked : Invoice) (card : CreditCard) (m : ℕ × ℕ) {tx : InvoiceTransaction}
    → IsInt64 req.amount
    → parse_month asked.reference_month ≡ some m
    → m.0 < 9999
    → find_invoice req.invoice_id req.user_id t.invoices ≡ some asked
    → asked.status ≢ opened
    → find_card asked.credit_card_id req.user_id t.cards ≡ some card
    → find_month asked.credit_card_id (next_reference_month asked.reference_month) t.invoices ≡ none
    → Limits.IsValid card
    → (add_transaction faults now ids req t).1 ≡ ok tx
    → let t' = (add_transaction faults now ids req t).0 in
      (inv : Invoice) × (card' : CreditCard) × (u : ℕ × ℕ) × (t'.invoices ≡ t.invoices ++ inv ∷ [])
      × (find_card asked.credit_card_id req.user_id t'.cards ≡ some card')
      × (inv.status ≡ opened)
      × (inv.credit_card_id ≡ asked.credit_card_id)
      × (parse_month inv.reference_month ≡ some u)
      × (month_number u ≡ month_number m + 1)
      × (outstanding inv ≡ req.amount)
      × (used card' ≡ used card +ℤ req.amount)
      × (tx.invoice_id ≡ inv.id)
add_transaction_rolls_over faults now ids req t asked card m {tx} ha is_m lt e st e' none_next vc
      h =
    let (next, g) = target-ok faults now ids req asked t e h in
    let made = target-next faults now ids req asked card t st e' none_next g in
    let (v, new) = create_next-IsNext now ids req asked card made in
    let (bought, acc, covered, written) =
      add_transaction-ok faults now ids req t asked next.0 true card e
        (g ∙ ap (λ b. ok (next.0, b)) new)
        (ap (λ c. find_card c req.user_id t.cards) v.card_ok ∙ e') h in
    let (_, bought_id, _, positive) = purchase-ok now ids req next.0 bought in
    let (status, of_card, month, same, due) =
      first_purchase now req.amount ids asked next.0 ha v acc in
    let (_, taken, _) = used_taken req.amount card vc positive covered in
    let (u, parsed, follows) = next_reference_month_lem asked.reference_month m is_m lt in
    rw written (
      (add_transaction_amount now req.amount next.0).0,
      take_credit req.amount card,
      u,
      write_invoice-new (add_transaction_amount now req.amount next.0).0 t,
      card_taken req.amount asked.credit_card_id req.user_id card t.cards e',
      status,
      of_card,
      ap parse_month month ∙ parsed,
      follows,
      due,
      taken,
      bought_id ∙ sym same,
    )
