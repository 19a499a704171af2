-- ===== src/CreditCard/Invoice/Status.antt =====
-- The status machine of an invoice as a diagram, and what a whole life of an invoice keeps.
mod Diagram
pub use Diagram.*
use aureum.Prelude.{ℕ, ◌≡◌, ◌≢◌, refl, ◌∙◌, ◌⊎◌, inl, inr, none, arith}
use aureum.Prelude.Int.{ℤ, pos, ◌+ℤ◌, ◌≤ℤ◌, IsInt64}
use aureum.CreditCard.Invoice.{
  Invoice, InvoiceStatus, opened, paid, transition_status, pay, add_transaction_amount,
}
use aureum.CreditCard.Invoice.Payments.{
  IsValid, pay-IsValid, pay_settles, add_transaction_amount_lem,
}

-- One accepted call of a method of the invoice.
pub data Step (i : Invoice) : Invoice → Type 0 where
  purchase :
      (now : ℕ) (amount : ℤ)
      → IsInt64 amount
      → IsInt64 (i.total_amount +ℤ amount)
      → (add_transaction_amount now amount i).1 ≡ none
      → Step i (add_transaction_amount now amount i).0
  payment :
      (now : ℕ) (amount : ℤ)
      → IsInt64 amount
      → (pay now amount i).1 ≡ none
      → Step i (pay now amount i).0
  transition :
      (now : ℕ) (st : InvoiceStatus)
      → (transition_status now st i).1 ≡ none
      → Step i (transition_status now st i).0

pub data Reach (i : Invoice) : Invoice → Type 0 where
  here : Reach i i
  next : {j k : Invoice} → Reach i j → Step j k → Reach i k

-- The status is not that of an invoice that takes purchases.
abbrev pub HasLeft : Invoice → ℤ → Type 0
HasLeft i total = (i.status ≢ opened) × (i.total_amount ≡ total)

step-HasLeft : {i j : Invoice} (total : ℤ) → Step i j → HasLeft i total → HasLeft j total
unfolding add_transaction_amount pay transition_status
step-HasLeft total (purchase now amount ha fits e) h = ground arith
step-HasLeft total (payment now amount ha e) h = ground arith
step-HasLeft total (transition now st e) h = ground arith

-- Once an invoice is no longer open it is never open again, and its total never changes, whatever
-- calls are accepted afterwards.
pub total_frozen :
    {i j : Invoice}
    → Reach i j
    → i.status ≢ opened
    → (j.status ≢ opened) × (j.total_amount ≡ i.total_amount)
total_frozen here h = (h, refl)
total_frozen {i} (next r s) h = step-HasLeft i.total_amount s (total_frozen r h)
