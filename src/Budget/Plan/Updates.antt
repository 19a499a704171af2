-- ===== src/Budget/Plan/Updates.antt =====
-- `ApplyUpdate` of apps/budget-svc/internal/domain/budget.go.
use aureum.Prelude.{
  ℕ, String, not, ◌&&◌, Option, none, some, List, [], ◌∷◌, str_eq, is_empty, Bytes, is_nil,
  bytes_ltb, Method, modify, fail_if, when_some, ◌>>◌, statements,
}
use aureum.Prelude.Int.{ℤ, pos, leb_ℤ}
use aureum.Budget.Errors.{
  Err, missing_field, invalid_period, negative_amount, invalid_date_range, access_denied,
}
use aureum.Budget.Plan.{Budget, BudgetPeriod, UpdateBudgetInput, valid_period, transition_status}

-- The statements of `ApplyUpdate`, one for each field.
check_owner : String → Method Budget Err
check_owner user_id b =
    fail_if (not (is_empty user_id) && not (str_eq user_id b.user_id)) access_denied b

set_name : String → Method Budget Err
set_name v = fail_if (is_empty v) missing_field >> modify (λ b. record b { name = v })

set_description : String → Method Budget Err
set_description v = modify (λ b. record b { description = v })

set_period : BudgetPeriod → Method Budget Err
unfolding valid_period
set_period v =
    fail_if (not (valid_period v)) invalid_period >> modify (λ b. record b { period = v })

set_total : ℤ → Method Budget Err
set_total v =
    fail_if (leb_ℤ v (pos 0)) negative_amount >> modify (λ b. record b { total_limit = v })

set_start : Bytes → Method Budget Err
set_start v = fail_if (is_nil v) missing_field >> modify (λ b. record b { start_date = v })

set_end : Bytes → Method Budget Err
set_end v = fail_if (is_nil v) missing_field >> modify (λ b. record b { end_date = v })

-- The three comparisons of the dates, by which of them the request sets.
check_dates : Option Bytes → Option Bytes → Method Budget Err
check_dates (some start) (some end) b =
    fail_if (bytes_ltb b.end_date b.start_date) invalid_date_range b
check_dates none (some end) b = fail_if (bytes_ltb end b.start_date) invalid_date_range b
check_dates (some start) none b = fail_if (bytes_ltb b.end_date start) invalid_date_range b
check_dates none none b = (b, none)

set_updated : ℕ → Method Budget Err
set_updated now = modify (λ b. record b { updated_at = now })

update_statements : ℕ → UpdateBudgetInput → List (Method Budget Err)
update_statements now input =
    check_owner input.user_id
    ∷ when_some input.name set_name
    ∷ when_some input.description set_description
    ∷ when_some input.period set_period
    ∷ when_some input.total_limit set_total
    ∷ when_some input.start_date set_start
    ∷ when_some input.end_date set_end
    ∷ check_dates input.start_date input.end_date
    ∷ when_some input.status (transition_status now)
    ∷ set_updated now
    ∷ []

-- `Budget.ApplyUpdate`
unfoldable pub apply_update : ℕ → UpdateBudgetInput → Method Budget Err
unfolding update_statements check_owner set_name set_description set_period set_total set_start
    set_end check_dates transition_status set_updated
apply_update now input = statements (update_statements now input)
