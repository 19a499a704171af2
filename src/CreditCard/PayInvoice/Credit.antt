-- ===== src/CreditCard/PayInvoice/Credit.antt =====
-- What a payment does to the rows of the invoice, of its card and of the outbox.
use aureum.Prelude.{
  if◌then◌else◌, ℕ, ◌≡◌, ◌≢◌, ◌↔◌, ◌⊎◌, inl, inr, Result-cases, Option-cases, true, false, ap, ◌∙◌,
  refl, none, some, [], ◌∷◌, ◌++◌, arith, ok, err,
}
use aureum.Prelude.Int.{ℤ, pos, ◌+ℤ◌, ◌-ℤ◌, ◌≤ℤ◌, ◌<ℤ◌, ltb_ℤ, IsInt64, add64_exact}
use aureum.CreditCard.Errors.{Err}
use aureum.CreditCard.Card.{CreditCard}
use aureum.CreditCard.Card.Limits.{used}
use aureum.CreditCard.Card.Limits
use aureum.CreditCard.Invoice.{Invoice, paid, pay}
use aureum.CreditCard.Invoice.Payments.{outstanding, pay_settles, pay_accepts, pay-IsValid}
use aureum.CreditCard.Invoice.Payments
use aureum.CreditCard.Tables.{
  Tables, find_card, update_card, find_invoice, update_invoice, set_invoice,
}
use aureum.CreditCard.Tables.Rows.{
  find_card-ids, find_invoice-ids, find_card-update_card, find_invoice-update_invoice,
}
use aureum.CreditCard.PayInvoice.{
  PayInvoiceRequest, Faults, restore_credit, paid_event, pay_invoice_at, pay_invoice,
}

-- A database that answers every call.
abbrev pub no_faults : Faults
no_faults = record {
  find_invoice = false;
  begin = false;
  update_invoice = false;
  find_card = false;
  update_card = false;
  save_event = false;
  commit = false;
}

-- Some call of the database would fail.
abbrev pub AnyFails : Faults → Type 0
AnyFails f =
    (f.find_invoice ≡ true)
    ⊎ (f.begin ≡ true)
    ⊎ (f.update_invoice ≡ true)
    ⊎ (f.find_card ≡ true)
    ⊎ (f.update_card ≡ true)
    ⊎ (f.save_event ≡ true)
    ⊎ (f.commit ≡ true)

-- No payment goes through with a call that fails.
fails-refused :
    (faults : Faults) (now : ℕ) (req : PayInvoiceRequest) (t : Tables) {r : Invoice}
    → AnyFails faults
    → (pay_invoice faults now req t).1 ≢ ok r
unfolding pay_invoice pay_invoice_at
fails-refused faults now req t a h = ground arith

refused-rolls_back :
    (faults : Faults) (now : ℕ) (req : PayInvoiceRequest) (t : Tables) {e : Err}
    → (pay_invoice faults now req t).1 ≡ err e
    → pay_invoice faults now req t ≡ (t, err e)
unfolding pay_invoice pay_invoice_at
refused-rolls_back faults now req t h = ground arith

-- A payment that is refused for any reason, and every payment in which some call of the database
-- fails, at whatever point, returns an error and leaves all tables as they were.
pub pay_invoice_refused :
    (faults : Faults) (now : ℕ) (req : PayInvoiceRequest) (t : Tables)
    → AnyFails faults ⊎ ((e : Err) × ((pay_invoice faults now req t).1 ≡ err e))
    → (e : Err) × (pay_invoice faults now req t ≡ (t, err e))
pay_invoice_refused faults now req t (inr (e, h)) = (e, refused-rolls_back faults now req t h)
pay_invoice_refused faults now req t (inl a) =
    elim (Result-cases (pay_invoice faults now req t).1) [
      | inl (r, h) ↦ absurd (fails-refused faults now req t a h)
      | inr (e, h) ↦ (e, refused-rolls_back faults now req t h)
    ]

-- A payment writes neither the names nor the owner of an invoice.
pay_row :
    (now : ℕ) (amount : ℤ) (inv : Invoice)
    → set_invoice (pay now amount inv).0 inv ≡ (pay now amount inv).0
unfolding pay
pay_row now amount inv = ground arith

pub pay-ids :
    (now : ℕ) (amount : ℤ) (inv : Invoice)
    → let inv' = (pay now amount inv).0 in
      (inv'.id ≡ inv.id) × (inv'.user_id ≡ inv.user_id) × (inv'.credit_card_id ≡ inv.credit_card_id)
unfolding pay
pay-ids now amount inv = ground arith

-- What was written, when the payment has gone through.
pay_invoice_at-ok :
    (faults : Faults) (now : ℕ) (req : PayInvoiceRequest) (first second t : Tables) {r : Invoice}
    (inv : Invoice) (card : CreditCard)
    → find_invoice req.id req.user_id first.invoices ≡ some inv
    → find_card inv.credit_card_id req.user_id second.cards ≡ some card
    → (pay_invoice_at faults now req first second t).1 ≡ ok r
    → ((pay now req.amount inv).1 ≡ none)
      × ((pay now req.amount inv).0 ≡ r)
      × ((pay_invoice_at faults now req first second t).0 ≡ record t {
        cards = update_card (restore_credit req.amount card) t.cards;
        invoices = update_invoice (pay now req.amount inv).0 t.invoices;
        events = t.events ++ paid_event now req.amount (pay now req.amount inv).0 ∷ [];
      })
unfolding pay_invoice_at
pay_invoice_at-ok faults now req first second t {r} inv card e e' h =
    let p = pay-ids now req.amount inv in (ground (arith, p), ground (arith, p), ground (arith, p))

pub used_restored :
    (amount : ℤ) (c : CreditCard)
    → Limits.IsValid c
    → pos 0 <ℤ amount
    → amount ≤ℤ used c
    → Limits.IsValid (restore_credit amount c) × (used (restore_credit amount c) +ℤ amount ≡ used c)
unfolding restore_credit used ◌-ℤ◌ ◌+ℤ◌
used_restored amount c v p le = ground (arith, add64_exact c.available_credit amount)

-- The credit in use after a payment: less by the amount, and nothing where the amount is more.
abbrev pub used_after : ℤ → ℤ → ℤ
used_after amount u = if ltb_ℤ amount u then u -ℤ amount else pos 0

used_capped :
    (amount : ℤ) (c : CreditCard)
    → Limits.IsValid c
    → pos 0 <ℤ amount
    → IsInt64 (c.available_credit +ℤ amount)
    → Limits.IsValid (restore_credit amount c)
      × (used (restore_credit amount c) ≡ used_after amount (used c))
unfolding restore_credit used ◌-ℤ◌ ◌+ℤ◌
used_capped amount c v p h = ground (arith, add64_exact c.available_credit amount h)

-- The rows of the invoice and of the card after the writes of a payment.
pub rows_written :
    (now : ℕ) (req : PayInvoiceRequest) (inv : Invoice) (card : CreditCard) (t : Tables)
    → find_invoice req.id req.user_id t.invoices ≡ some inv
    → find_card inv.credit_card_id req.user_id t.cards ≡ some card
    → let r = (pay now req.amount inv).0 in
      (find_invoice req.id req.user_id (update_invoice r t.invoices) ≡ some r)
      × (find_card inv.credit_card_id req.user_id
            (update_card (restore_credit req.amount card) t.cards)
          ≡ some (restore_credit req.amount card))
unfolding restore_credit
rows_written now req inv card t e e' =
    let r = (pay now req.amount inv).0 in
    let i =
      find_invoice-update_invoice req.id req.user_id r t.invoices
        (ground
          (arith, pay-ids now req.amount inv, find_invoice-ids req.id req.user_id t.invoices e))
        e in
    let c =
      find_card-update_card inv.credit_card_id req.user_id (restore_credit req.amount card) t.cards
        (find_card-ids inv.credit_card_id req.user_id t.cards e').0 e' in
    (i ∙ ap some (pay_row now req.amount inv), c)

-- A payment that goes through, of an amount of int64 on a valid invoice whose card is found and valid,
-- where the available credit and the amount add up to an int64, lowers what is outstanding by the
-- amount, and the credit in use by the same amount or, where less is in use, to nothing; it keeps both
-- rows valid, and puts one event into the outbox, which tells the amounts and the status that the
-- invoice has.
pub pay_invoice_moves :
    (faults : Faults) (now : ℕ) (req : PayInvoiceRequest) (t : Tables) (inv : Invoice)
    (card : CreditCard) {r : Invoice}
    → IsInt64 req.amount
    → find_invoice req.id req.user_id t.invoices ≡ some inv
    → find_card inv.credit_card_id req.user_id t.cards ≡ some card
    → Payments.IsValid inv
    → Limits.IsValid card
    → IsInt64 (card.available_credit +ℤ req.amount)
    → (pay_invoice faults now req t).1 ≡ ok r
    → let t' = (pay_invoice faults now req t).0 in
      (card' : CreditCard) × (find_invoice req.id req.user_id t'.invoices ≡ some r)
      × (find_card inv.credit_card_id req.user_id t'.cards ≡ some card')
      × (outstanding r +ℤ req.amount ≡ outstanding inv)
      × (used card' ≡ used_after req.amount (used card))
      × Payments.IsValid r
      × Limits.IsValid card'
      × (t'.events ≡ t.events ++ paid_event now req.amount r ∷ [])
unfolding pay_invoice
pay_invoice_moves faults now req t inv card {r} ha e e' vi vc fits h =
    let (acc, same, written) = pay_invoice_at-ok faults now req t t t inv card e e' h in
    let (_, positive, _) = (pay_accepts now req.amount inv ha vi).0 acc in
    let (lowered, _, _) = pay_settles now req.amount inv ha vi acc in
    let (vc', freed) = used_capped req.amount card vc positive fits in
    let (row, card_row) = rows_written now req inv card t e e' in
    rw (written, ← same)
      (
        restore_credit req.amount card,
        row,
        card_row,
        lowered,
        freed,
        pay-IsValid now req.amount inv ha vi,
        vc',
        refl,
      )

no_card-refused :
    (faults : Faults) (now : ℕ) (req : PayInvoiceRequest) (t : Tables) (inv : Invoice) {r : Invoice}
    → find_invoice req.id req.user_id t.invoices ≡ some inv
    → find_card inv.credit_card_id req.user_id t.cards ≡ none
    → (pay_invoice faults now req t).1 ≢ ok r
unfolding pay_invoice pay_invoice_at
no_card-refused faults now req t inv e e' h =
    let p = pay-ids now req.amount inv in ground (arith, p)

-- With a database that answers, a payment of an amount of int64 on a valid invoice goes through exactly
-- when the invoice is not paid, the amount is positive and at most what is outstanding, and the card
-- of the invoice is found.
pub pay_invoice_accepts :
    (now : ℕ) (req : PayInvoiceRequest) (t : Tables) (inv : Invoice)
    → IsInt64 req.amount
    → find_invoice req.id req.user_id t.invoices ≡ some inv
    → Payments.IsValid inv
    → ((r : Invoice) × ((pay_invoice no_faults now req t).1 ≡ ok r)) ↔ (
        (inv.status ≢ paid)
        × (pos 0 <ℤ req.amount)
        × (req.amount ≤ℤ outstanding inv)
        × ((card : CreditCard) × (find_card inv.credit_card_id req.user_id t.cards ≡ some card)))
unfolding pay_invoice pay_invoice_at
pay_invoice_accepts now req t inv ha e vi =
    let p = pay-ids now req.amount inv in
    let a = pay_accepts now req.amount inv ha vi in
    (
      λ (r, h). elim (Option-cases (find_card inv.credit_card_id req.user_id t.cards)) [
        | inl e' ↦ absurd (no_card-refused no_faults now req t inv e e' h)
        | inr (card, e') ↦
            let (unpaid, positive, covered) =
              a.0 (pay_invoice_at-ok no_faults now req t t t inv card e e' h).0 in
            (unpaid, positive, covered, (card, e'))
      ],
      λ (unpaid, positive, covered, (card, e')).
          ((pay now req.amount inv).0, ground (arith, p, a.1 (unpaid, positive, covered))),
    )
