-- ===== src/Debt/Payment.antt =====
-- apps/debt-svc/internal/domain/payment.go: one payment on a debt.
use aureum.Prelude.{ℕ, String, Bool, List, [], ◌∷◌, is_empty, Result, ok, guards}
use aureum.Prelude.Int.{ℤ, pos, leb_ℤ}
use aureum.Debt.Errors.{Err, missing_field, negative_amount}

pub record Payment : Type 0 where
  pub id : String
  pub debt_id : String
  pub user_id : String
  pub amount : ℤ  -- int64
  pub payment_date : String
  pub notes : String
  pub created_at : ℕ

pub record RegisterPaymentInput : Type 0 where
  pub debt_id : String
  pub user_id : String
  pub amount : ℤ
  pub payment_date : String
  pub notes : String

-- The guards of `NewPayment`, each with the error that it returns.
payment_guards : RegisterPaymentInput → List (Bool × Err)
payment_guards input =
    (is_empty input.debt_id, missing_field)
    ∷ (is_empty input.user_id, missing_field)
    ∷ (leb_ℤ input.amount (pos 0), negative_amount)
    ∷ (is_empty input.payment_date, missing_field)
    ∷ []

-- The payment that it returns past them. The id is set by the caller, and is empty until then.
fresh_payment : ℕ → RegisterPaymentInput → Payment
fresh_payment now input = record {
  id = "";
  debt_id = input.debt_id;
  user_id = input.user_id;
  amount = input.amount;
  payment_date = input.payment_date;
  notes = input.notes;
  created_at = now;
}

-- `NewPayment`
unfoldable pub new_payment : ℕ → RegisterPaymentInput → Result Err Payment
unfolding payment_guards fresh_payment
new_payment now input = guards (payment_guards input) (ok (fresh_payment now input))
