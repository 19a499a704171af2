-- ===== src/Debt/Account/Updates.antt =====
-- `ApplyUpdate` of apps/debt-svc/internal/domain/debt.go.
pub mod Kept
use aureum.Prelude.{
  ℕ, String, not, ◌&&◌, List, [], ◌∷◌, str_eq, is_empty, Method, modify, fail_if, when_some, ◌>>◌,
  statements,
}
use aureum.Prelude.Int.{ℤ, pos, leb_ℤ}
use aureum.Debt.Errors.{Err, missing_field, invalid_debt_type, negative_amount, access_denied}
use aureum.Debt.Account.{Debt, DebtType, UpdateDebtInput, valid_type, transition_status}

-- The statements of `ApplyUpdate`, one for each field.
check_owner : String → Method Debt Err
check_owner user_id d =
    fail_if (not (is_empty user_id) && not (str_eq user_id d.user_id)) access_denied d

set_name : String → Method Debt Err
set_name v = fail_if (is_empty v) missing_field >> modify (λ d. record d { name = v })

set_description : String → Method Debt Err
set_description v = modify (λ d. record d { description = v })

set_type : DebtType → Method Debt Err
unfolding valid_type
set_type v =
    fail_if (not (valid_type v)) invalid_debt_type >> modify (λ d. record d { debt_type = v })

set_total : ℤ → Method Debt Err
set_total v =
    fail_if (leb_ℤ v (pos 0)) negative_amount >> modify (λ d. record d { total_amount = v })

set_rate : ℤ → Method Debt Err
set_rate v = modify (λ d. record d { interest_rate = v })

set_end_date : String → Method Debt Err
set_end_date v = modify (λ d. record d { expected_end_date = v })

set_creditor : String → Method Debt Err
set_creditor v = modify (λ d. record d { creditor = v })

set_updated : ℕ → Method Debt Err
set_updated now = modify (λ d. record d { updated_at = now })

update_statements : ℕ → UpdateDebtInput → List (Method Debt Err)
update_statements now input =
    check_owner input.user_id
    ∷ when_some input.name set_name
    ∷ when_some input.description set_description
    ∷ when_some input.debt_type set_type
    ∷ when_some input.total_amount set_total
    ∷ when_some input.interest_rate set_rate
    ∷ when_some input.expected_end_date set_end_date
    ∷ when_some input.status transition_status
    ∷ when_some input.creditor set_creditor
    ∷ set_updated now
    ∷ []

-- `Debt.ApplyUpdate`
unfoldable pub apply_update : ℕ → UpdateDebtInput → Method Debt Err
unfolding update_statements check_owner set_name set_description set_type set_total set_rate
    set_end_date transition_status set_creditor set_updated
apply_update now input = statements (update_statements now input)
