-- ===== src/CreditCard/Purchase.antt =====
-- apps/creditcard-svc/internal/domain/invoice_transaction.go: one purchase on an invoice.
use aureum.Prelude.{ℕ, Bool, List, String, if◌then◌else◌, [], ◌∷◌, is_empty, Result, ok, guards}
use aureum.Prelude.Int.{ℤ, pos, leb_ℤ, ltb_ℤ}
use aureum.CreditCard.Errors.{Err, missing_field, negative_amount}

pub record InvoiceTransaction : Type 0 where
  pub id : String
  pub invoice_id : String
  pub user_id : String
  pub description : String
  pub amount : ℤ  -- int64
  pub category : String
  pub transaction_date : String
  pub installments : ℤ  -- int32
  pub created_at : ℕ

pub record CreateTransactionInput : Type 0 where
  pub invoice_id : String
  pub user_id : String
  pub description : String
  pub amount : ℤ
  pub category : String
  pub transaction_date : String
  pub installments : ℤ

-- The guards of `NewInvoiceTransaction`, each with the error that it returns.
transaction_guards : CreateTransactionInput → List (Bool × Err)
transaction_guards input =
    (is_empty input.invoice_id, missing_field)
    ∷ (is_empty input.user_id, missing_field)
    ∷ (is_empty input.description, missing_field)
    ∷ (leb_ℤ input.amount (pos 0), negative_amount)
    ∷ (is_empty input.transaction_date, missing_field)
    ∷ []

-- The transaction that it returns past them.
fresh_transaction : ℕ → CreateTransactionInput → InvoiceTransaction
fresh_transaction now input = record {
  id = "";
  invoice_id = input.invoice_id;
  user_id = input.user_id;
  description = input.description;
  amount = input.amount;
  category = if is_empty input.category then "other" else input.category;
  transaction_date = input.transaction_date;
  installments = if ltb_ℤ input.installments (pos 1) then pos 1 else input.installments;
  created_at = now;
}

-- `NewInvoiceTransaction`. The id is set by the caller, and is empty until then.
unfoldable pub new_invoice_transaction : ℕ → CreateTransactionInput → Result Err InvoiceTransaction
unfolding transaction_guards fresh_transaction
new_invoice_transaction now input =
    guards (transaction_guards input) (ok (fresh_transaction now input))
