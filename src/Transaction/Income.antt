-- ===== src/Transaction/Income.antt =====
-- apps/transaction-svc/internal/domain/income.go: an income.
pub mod Updates
use aureum.Prelude.{
  ℕ, String, Bool, not, ◌&&◌, Option, none, List, [], ◌∷◌, str_eq, is_empty, Result, ok, guards,
  Method, modify, fail_if, when_some, ◌>>◌, statements,
}
use aureum.Prelude.Int.{ℤ, pos, leb_ℤ}
use aureum.Transaction.Types.{
  TransactionStatus, IncomeType, valid_status, valid_income_type, status_is_empty,
  income_type_is_empty, transition,
}
use aureum.Transaction.Errors.{
  Err, missing_field, invalid_enum, invalid_status, access_denied, negative_amount,
}

pub record Income : Type 0 where
  pub id : String
  pub user_id : String
  pub description : String
  pub source : String
  pub income_type : IncomeType
  pub received_date : String
  pub received_amount : ℤ  -- int64
  pub status : TransactionStatus
  pub created_at : ℕ
  pub updated_at : ℕ
  pub deleted_at : Option ℕ

pub record CreateIncomeInput : Type 0 where
  pub user_id : String
  pub description : String
  pub source : String
  pub income_type : IncomeType
  pub received_date : String
  pub received_amount : ℤ
  pub status : TransactionStatus

pub record UpdateIncomeInput : Type 0 where
  pub id : String
  pub user_id : String
  pub description : Option String
  pub source : Option String
  pub income_type : Option IncomeType
  pub received_date : Option String
  pub received_amount : Option ℤ
  pub status : Option TransactionStatus

-- The guards of `NewIncome`, each with the error that it returns.
income_guards : CreateIncomeInput → List (Bool × Err)
unfolding valid_status valid_income_type
income_guards input =
    (is_empty input.user_id, missing_field)
    ∷ (is_empty input.description, missing_field)
    ∷ (is_empty input.source, missing_field)
    ∷ (income_type_is_empty input.income_type, missing_field)
    ∷ (not (valid_income_type input.income_type), invalid_enum)
    ∷ (is_empty input.received_date, missing_field)
    ∷ (leb_ℤ input.received_amount (pos 0), negative_amount)
    ∷ (status_is_empty input.status, missing_field)
    ∷ (not (valid_status input.status), invalid_status)
    ∷ []

-- The record that it returns past them. The id is set by the caller, and is empty until then.
fresh_income : ℕ → CreateIncomeInput → Income
fresh_income now input = record {
  id = "";
  user_id = input.user_id;
  description = input.description;
  source = input.source;
  income_type = input.income_type;
  received_date = input.received_date;
  received_amount = input.received_amount;
  status = input.status;
  created_at = now;
  updated_at = now;
  deleted_at = none;
}

-- `NewIncome`
unfoldable pub new_income : ℕ → CreateIncomeInput → Result Err Income
unfolding income_guards fresh_income
new_income now input = guards (income_guards input) (ok (fresh_income now input))

-- `Income.TransitionStatus`, which leaves the time of the update to its caller.
unfoldable pub transition_status : TransactionStatus → Method Income Err
unfolding transition
transition_status new x =
    (record x { status = (transition new x.status).0 }, (transition new x.status).1)

-- The statements of `ApplyUpdate`, one for each field.
check_owner : String → Method Income Err
check_owner user_id x =
    fail_if (not (is_empty user_id) && not (str_eq user_id x.user_id)) access_denied x

set_description : String → Method Income Err
set_description v = fail_if (is_empty v) missing_field >> modify (λ x. record x { description = v })

set_source : String → Method Income Err
set_source v = fail_if (is_empty v) missing_field >> modify (λ x. record x { source = v })

set_income_type : IncomeType → Method Income Err
unfolding valid_income_type
set_income_type v =
    fail_if (not (valid_income_type v)) invalid_enum >> modify (λ x. record x { income_type = v })

set_received_date : String → Method Income Err
set_received_date v =
    fail_if (is_empty v) missing_field >> modify (λ x. record x { received_date = v })

set_received_amount : ℤ → Method Income Err
set_received_amount v =
    fail_if (leb_ℤ v (pos 0)) negative_amount >> modify (λ x. record x { received_amount = v })

set_updated : ℕ → Method Income Err
set_updated now = modify (λ x. record x { updated_at = now })

update_statements : ℕ → UpdateIncomeInput → List (Method Income Err)
update_statements now input =
    check_owner input.user_id
    ∷ when_some input.description set_description
    ∷ when_some input.source set_source
    ∷ when_some input.income_type set_income_type
    ∷ when_some input.received_date set_received_date
    ∷ when_some input.received_amount set_received_amount
    ∷ when_some input.status transition_status
    ∷ set_updated now
    ∷ []

-- `Income.ApplyUpdate`
unfoldable pub apply_update : ℕ → UpdateIncomeInput → Method Income Err
unfolding update_statements check_owner set_description set_source set_income_type set_received_date
    set_received_amount transition_status set_updated
apply_update now input = statements (update_statements now input)
