-- ===== src/Transaction/FixedExpense.antt =====
-- apps/transaction-svc/internal/domain/fixed_expense.go: an expense that is paid every month.
pub mod Updates
use aureum.Prelude.{
  ℕ, String, Bool, not, ◌&&◌, ◌||◌, Option, none, List, [], ◌∷◌, str_eq, is_empty, Result, ok,
  guards, Method, modify, fail_if, when_some, ◌>>◌, statements,
}
use aureum.Prelude.Int.{ℤ, pos, ltb_ℤ}
use aureum.Transaction.Types.{
  TransactionStatus, PaymentMethod, valid_status, valid_method, status_is_empty, method_is_empty,
  transition,
}
use aureum.Transaction.Errors.{
  Err, missing_field, invalid_day, invalid_enum, invalid_status, access_denied,
}

pub record FixedExpense : Type 0 where
  pub id : String
  pub user_id : String
  pub description : String
  pub category : String
  pub day_of_month : ℤ  -- int64
  pub payment_method : PaymentMethod
  pub status : TransactionStatus
  pub created_at : ℕ
  pub updated_at : ℕ
  pub deleted_at : Option ℕ

pub record CreateFixedExpenseInput : Type 0 where
  pub user_id : String
  pub description : String
  pub category : String
  pub day_of_month : ℤ
  pub payment_method : PaymentMethod
  pub status : TransactionStatus

pub record UpdateFixedExpenseInput : Type 0 where
  pub id : String
  pub user_id : String
  pub description : Option String
  pub category : Option String
  pub day_of_month : Option ℤ
  pub payment_method : Option PaymentMethod
  pub status : Option TransactionStatus

-- The guards of `NewFixedExpense`, each with the error that it returns.
fixed_expense_guards : CreateFixedExpenseInput → List (Bool × Err)
unfolding valid_status valid_method
fixed_expense_guards input =
    (is_empty input.user_id, missing_field)
    ∷ (is_empty input.description, missing_field)
    ∷ (is_empty input.category, missing_field)
    ∷ (ltb_ℤ input.day_of_month (pos 1) || ltb_ℤ (pos 31) input.day_of_month, invalid_day)
    ∷ (method_is_empty input.payment_method, missing_field)
    ∷ (not (valid_method input.payment_method), invalid_enum)
    ∷ (status_is_empty input.status, missing_field)
    ∷ (not (valid_status input.status), invalid_status)
    ∷ []

-- The record that it returns past them. The id is set by the caller, and is empty until then.
fresh_fixed_expense : ℕ → CreateFixedExpenseInput → FixedExpense
fresh_fixed_expense now input = record {
  id = "";
  user_id = input.user_id;
  description = input.description;
  category = input.category;
  day_of_month = input.day_of_month;
  payment_method = input.payment_method;
  status = input.status;
  created_at = now;
  updated_at = now;
  deleted_at = none;
}

-- `NewFixedExpense`
unfoldable pub new_fixed_expense : ℕ → CreateFixedExpenseInput → Result Err FixedExpense
unfolding fixed_expense_guards fresh_fixed_expense
new_fixed_expense now input =
    guards (fixed_expense_guards input) (ok (fresh_fixed_expense now input))

-- `FixedExpense.TransitionStatus`, which leaves the time of the update to its caller.
unfoldable pub transition_status : TransactionStatus → Method FixedExpense Err
unfolding transition
transition_status new x =
    (record x { status = (transition new x.status).0 }, (transition new x.status).1)

-- The statements of `ApplyUpdate`, one for each field.
check_owner : String → Method FixedExpense Err
check_owner user_id x =
    fail_if (not (is_empty user_id) && not (str_eq user_id x.user_id)) access_denied x

set_description : String → Method FixedExpense Err
set_description v = fail_if (is_empty v) missing_field >> modify (λ x. record x { description = v })

set_category : String → Method FixedExpense Err
set_category v = fail_if (is_empty v) missing_field >> modify (λ x. record x { category = v })

set_day_of_month : ℤ → Method FixedExpense Err
set_day_of_month v =
    fail_if (ltb_ℤ v (pos 1) || ltb_ℤ (pos 31) v) invalid_day
    >> modify (λ x. record x { day_of_month = v })

set_payment_method : PaymentMethod → Method FixedExpense Err
unfolding valid_method
set_payment_method v =
    fail_if (not (valid_method v)) invalid_enum >> modify (λ x. record x { payment_method = v })

set_updated : ℕ → Method FixedExpense Err
set_updated now = modify (λ x. record x { updated_at = now })

update_statements : ℕ → UpdateFixedExpenseInput → List (Method FixedExpense Err)
update_statements now input =
    check_owner input.user_id
    ∷ when_some input.description set_description
    ∷ when_some input.category set_category
    ∷ when_some input.day_of_month set_day_of_month
    ∷ when_some input.payment_method set_payment_method
    ∷ when_some input.status transition_status
    ∷ set_updated now
    ∷ []

-- `FixedExpense.ApplyUpdate`
unfoldable pub apply_update : ℕ → UpdateFixedExpenseInput → Method FixedExpense Err
unfolding update_statements check_owner set_description set_category set_day_of_month
    set_payment_method transition_status set_updated
apply_update now input = statements (update_statements now input)
