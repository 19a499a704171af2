-- ===== src/Budget/Plan.antt =====
-- apps/budget-svc/internal/domain/budget.go: the budget, its categories and its status.
-- Dates are lists of bytes, which the code compares as texts.
pub mod Limits
pub mod Status
pub mod Updates
use aureum.Prelude.{
  ℕ, String, Bool, true, false, not, ◌&&◌, ◌||◌, Option, none, some, List, [], ◌∷◌, map, str_eq,
  if◌then◌else◌, is_empty, contains_by, Bytes, is_nil, bytes_ltb, Result, ok, err, guards, Method,
  modify, fail_if, when_some, ◌>>◌, statements,
}
use aureum.Prelude.Int.{ℤ, pos, leb_ℤ, ltb_ℤ, add64}
use aureum.Budget.Errors.{
  Err, missing_field, invalid_period, negative_amount, invalid_date_range, invalid_status,
  category_limit, access_denied, status_transition,
}

-- `BudgetPeriod`, a string type: `unlisted` is any text that no constant names.
pub data BudgetPeriod : Type 0 where
  monthly bimonthly quarterly semestral yearly custom : BudgetPeriod
  unlisted : String → BudgetPeriod

-- `BudgetStatus`, a string type, with the same reading of `unknown`.
pub data BudgetStatus : Type 0 where
  active paused completed cancelled : BudgetStatus
  unknown : String → BudgetStatus

-- `BudgetPeriod.Valid`
unfoldable pub valid_period : BudgetPeriod → Bool
valid_period (unlisted s) = false
valid_period p = true

-- `BudgetStatus.Valid`
unfoldable pub valid_status : BudgetStatus → Bool
valid_status (unknown s) = false
valid_status s = true

-- `period == ""`
abbrev period_is_empty : BudgetPeriod → Bool
period_is_empty (unlisted s) = is_empty s
period_is_empty p = false

-- `if input.Status == "" { input.Status = BudgetStatusActive }`
status_or_active : BudgetStatus → BudgetStatus
status_or_active (unknown s) = if is_empty s then active else unknown s
status_or_active s = s

-- `==` on `BudgetStatus`
unfoldable pub same : BudgetStatus → BudgetStatus → Bool
same active active = true
same paused paused = true
same completed completed = true
same cancelled cancelled = true
same (unknown s) (unknown t) = str_eq s t
same s t = false

pub record BudgetCategory : Type 0 where
  pub id : String
  pub budget_id : String
  pub name : String
  pub limit_amount : ℤ  -- int64
  pub spent_amount : ℤ  -- int64
  pub category : String

pub record Budget : Type 0 where
  pub id : String
  pub user_id : String
  pub name : String
  pub description : String
  pub period : BudgetPeriod
  pub total_limit : ℤ  -- int64
  pub spent_amount : ℤ  -- int64
  pub status : BudgetStatus
  pub start_date : Bytes
  pub end_date : Bytes
  pub categories : List BudgetCategory
  pub created_at : ℕ
  pub updated_at : ℕ
  pub deleted_at : Option ℕ

pub record CreateBudgetCategoryInput : Type 0 where
  pub name : String
  pub limit_amount : ℤ
  pub category : String

pub record CreateBudgetInput : Type 0 where
  pub user_id : String
  pub name : String
  pub description : String
  pub period : BudgetPeriod
  pub total_limit : ℤ
  pub start_date : Bytes
  pub end_date : Bytes
  pub categories : List CreateBudgetCategoryInput
  pub status : BudgetStatus

pub record UpdateBudgetInput : Type 0 where
  pub id : String
  pub user_id : String
  pub name : Option String
  pub description : Option String
  pub period : Option BudgetPeriod
  pub total_limit : Option ℤ
  pub start_date : Option Bytes
  pub end_date : Option Bytes
  pub status : Option BudgetStatus

-- The guards of `NewBudget` before its loop, each with the error that it returns.
unfoldable pub budget_guards : CreateBudgetInput → List (Bool × Err)
unfolding valid_period valid_status status_or_active
budget_guards input =
    (is_empty input.user_id, missing_field)
    ∷ (is_empty input.name, missing_field)
    ∷ (period_is_empty input.period, missing_field)
    ∷ (not (valid_period input.period), invalid_period)
    ∷ (leb_ℤ input.total_limit (pos 0), negative_amount)
    ∷ (is_nil input.start_date || is_nil input.end_date, missing_field)
    ∷ (bytes_ltb input.end_date input.start_date, invalid_date_range)
    ∷ (not (valid_status (status_or_active input.status)), invalid_status)
    ∷ []

-- The loop over the categories: the sum of their limits, from the sum so far.
sum_categories : ℤ → List CreateBudgetCategoryInput → Result Err ℤ
sum_categories sum [] = ok sum
sum_categories sum (cat ∷ cats) =
    let rest = sum_categories (add64 sum cat.limit_amount) cats in
    if is_empty cat.name
    then err missing_field
    else if leb_ℤ cat.limit_amount (pos 0)
    then err negative_amount
    else rest

fresh_category : CreateBudgetCategoryInput → BudgetCategory
fresh_category cat = record {
  id = "";
  budget_id = "";
  name = cat.name;
  limit_amount = cat.limit_amount;
  spent_amount = pos 0;
  category = cat.category;
}

-- The budget that is returned past all checks. The ids are set by the caller.
unfoldable pub fresh_budget : ℕ → CreateBudgetInput → Budget
unfolding status_or_active fresh_category
fresh_budget now input = record {
  id = "";
  user_id = input.user_id;
  name = input.name;
  description = input.description;
  period = input.period;
  total_limit = input.total_limit;
  spent_amount = pos 0;
  status = status_or_active input.status;
  start_date = input.start_date;
  end_date = input.end_date;
  categories = map fresh_category input.categories;
  created_at = now;
  updated_at = now;
  deleted_at = none;
}

-- The check of the sum against the total limit.
within_limit : ℕ → CreateBudgetInput → Result Err ℤ → Result Err Budget
unfolding fresh_budget
within_limit now input (err e) = err e
within_limit now input (ok sum) =
    if ltb_ℤ input.total_limit sum then err category_limit else ok (fresh_budget now input)

-- `NewBudget`
unfoldable pub new_budget : ℕ → CreateBudgetInput → Result Err Budget
unfolding budget_guards sum_categories within_limit
new_budget now input =
    guards (budget_guards input) (within_limit now input (sum_categories (pos 0) input.categories))

-- The map `allowed` of `TransitionStatus`.
allowed : BudgetStatus → Option (List BudgetStatus)
allowed active = some (paused ∷ completed ∷ cancelled ∷ [])
allowed paused = some (active ∷ cancelled ∷ [])
allowed completed = some []
allowed cancelled = some []
allowed (unknown s) = none

-- `Budget.TransitionStatus`
unfoldable pub transition_status : ℕ → BudgetStatus → Method Budget Err
unfolding valid_status same allowed
transition_status now new b =
    if not (valid_status new) then (b, some invalid_status) else elim (allowed b.status) [
      | none ↦ (b, some invalid_status)
      | some transitions ↦
          if contains_by same new transitions
          then (record b { status = new; updated_at = now }, none)
          else (b, some status_transition)
    ]

-- `Budget.MarkAsCompleted` and `Budget.Cancel`
unfoldable pub mark_as_completed : ℕ → Method Budget Err
unfolding transition_status
mark_as_completed now = transition_status now completed

unfoldable pub cancel : ℕ → Method Budget Err
unfolding transition_status
cancel now = transition_status now cancelled
