-- ===== src/Transaction/VariableExpense.antt =====
-- apps/transaction-svc/internal/domain/variable_expense.go: an expense that is paid once.
pub mod Updates
use aureum.Prelude.{
  ℕ, String, Bool, not, ◌&&◌, Option, none, List, [], ◌∷◌, str_eq, is_empty, Result, ok, guards,
  Method, modify, fail_if, when_some, ◌>>◌, statements,
}
use aureum.Prelude.Int.{ℤ, pos, leb_ℤ}
use aureum.Transaction.Types.{
  TransactionStatus, ExpenseType, PaymentMethod, valid_status, valid_expense_type, valid_method,
  status_is_empty, expense_type_is_empty, method_is_empty, transition,
}
use aureum.Transaction.Errors.{
  Err, missing_field, invalid_enum, invalid_status, access_denied, negative_amount,
}

pub record VariableExpense : Type 0 where
  pub id : String
  pub user_id : String
  pub description : String
  pub destination : String
  pub category : String
  pub expense_type : ExpenseType
  pub payment_method : PaymentMethod
  pub payment_date : String
  pub paid_amount : ℤ  -- int64
  pub status : TransactionStatus
  pub created_at : ℕ
  pub updated_at : ℕ
  pub deleted_at : Option ℕ

pub record CreateVariableExpenseInput : Type 0 where
  pub user_id : String
  pub description : String
  pub destination : String
  pub category : String
  pub expense_type : ExpenseType
  pub payment_method : PaymentMethod
  pub payment_date : String
  pub paid_amount : ℤ
  pub status : TransactionStatus

pub record UpdateVariableExpenseInput : Type 0 where
  pub id : String
  pub user_id : String
  pub description : Option String
  pub destination : Option String
  pub category : Option String
  pub expense_type : Option ExpenseType
  pub payment_method : Option PaymentMethod
  pub payment_date : Option String
  pub paid_amount : Option ℤ
  pub status : Option TransactionStatus

-- The guards of `NewVariableExpense`, each with the error that it returns.
variable_expense_guards : CreateVariableExpenseInput → List (Bool × Err)
unfolding valid_status valid_expense_type valid_method
variable_expense_guards input =
    (is_empty input.user_id, missing_field)
    ∷ (is_empty input.description, missing_field)
    ∷ (is_empty input.destination, missing_field)
    ∷ (is_empty input.category, missing_field)
    ∷ (expense_type_is_empty input.expense_type, missing_field)
    ∷ (not (valid_expense_type input.expense_type), invalid_enum)
    ∷ (method_is_empty input.payment_method, missing_field)
    ∷ (not (valid_method input.payment_method), invalid_enum)
    ∷ (is_empty input.payment_date, missing_field)
    ∷ (leb_ℤ input.paid_amount (pos 0), negative_amount)
    ∷ (status_is_empty input.status, missing_field)
    ∷ (not (valid_status input.status), invalid_status)
    ∷ []

-- The record that it returns past them. The id is set by the caller, and is empty until then.
fresh_variable_expense : ℕ → CreateVariableExpenseInput → VariableExpense
fresh_variable_expense now input = record {
  id = "";
  user_id = input.user_id;
  description = input.description;
  destination = input.destination;
  category = input.category;
  expense_type = input.expense_type;
  payment_method = input.payment_method;
  payment_date = input.payment_date;
  paid_amount = input.paid_amount;
  status = input.status;
  created_at = now;
  updated_at = now;
  deleted_at = none;
}

-- `NewVariableExpense`
unfoldable pub new_variable_expense : ℕ → CreateVariableExpenseInput → Result Err VariableExpense
unfolding variable_expense_guards fresh_variable_expense
new_variable_expense now input =
    guards (variable_expense_guards input) (ok (fresh_variable_expense now input))

-- `VariableExpense.TransitionStatus`, which leaves the time of the update to its caller.
unfoldable pub transition_status : TransactionStatus → Method VariableExpense Err
unfolding transition
transition_status new x =
    (record x { status = (transition new x.status).0 }, (transition new x.status).1)

-- The statements of `ApplyUpdate`, one for each field.
check_owner : String → Method VariableExpense Err
check_owner user_id x =
    fail_if (not (is_empty user_id) && not (str_eq user_id x.user_id)) access_denied x

set_description : String → Method VariableExpense Err
set_description v = fail_if (is_empty v) missing_field >> modify (λ x. record x { description = v })

set_destination : String → Method VariableExpense Err
set_destination v = fail_if (is_empty v) missing_field >> modify (λ x. record x { destination = v })

set_category : String → Method VariableExpense Err
set_category v = fail_if (is_empty v) missing_field >> modify (λ x. record x { category = v })

set_expense_type : ExpenseType → Method VariableExpense Err
unfolding valid_expense_type
set_expense_type v =
    fail_if (not (valid_expense_type v)) invalid_enum >> modify (λ x. record x { expense_type = v })

set_payment_method : PaymentMethod → Method VariableExpense Err
unfolding valid_method
set_payment_method v =
    fail_if (not (valid_method v)) invalid_enum >> modify (λ x. record x { payment_method = v })

set_payment_date : String → Method VariableExpense Err
set_payment_date v =
    fail_if (is_empty v) missing_field >> modify (λ x. record x { payment_date = v })

set_paid_amount : ℤ → Method VariableExpense Err
set_paid_amount v =
    fail_if (leb_ℤ v (pos 0)) negative_amount >> modify (λ x. record x { paid_amount = v })

set_updated : ℕ → Method VariableExpense Err
set_updated now = modify (λ x. record x { updated_at = now })

update_statements : ℕ → UpdateVariableExpenseInput → List (Method VariableExpense Err)
update_statements now input =
    check_owner input.user_id
    ∷ when_some input.description set_description
    ∷ when_some input.destination set_destination
    ∷ when_some input.category set_category
    ∷ when_some input.expense_type set_expense_type
    ∷ when_some input.payment_method set_payment_method
    ∷ when_some input.payment_date set_payment_date
    ∷ when_some input.paid_amount set_paid_amount
    ∷ when_some input.status transition_status
    ∷ set_updated now
    ∷ []

-- `VariableExpense.ApplyUpdate`
unfoldable pub apply_update : ℕ → UpdateVariableExpenseInput → Method VariableExpense Err
unfolding update_statements check_owner set_description set_destination set_category
    set_expense_type set_payment_method set_payment_date set_paid_amount transition_status
    set_updated
apply_update now input = statements (update_statements now input)
