-- ===== src/Transaction/Types.antt =====
-- apps/transaction-svc/internal/domain/types.go, the income types of income.go, and the transition
-- of a status that `Income`, `FixedExpense` and `VariableExpense` share word for word.
pub mod Transitions
use aureum.Prelude.{
  String, Bool, true, false, not, Option, none, some, List, [], ◌∷◌, str_eq, if◌then◌else◌,
  is_empty, contains_by, Method,
}
use aureum.Transaction.Errors.{Err, invalid_status, status_transition}

-- The types are string types: the last constructor of each is any text that no constant names.
pub data TransactionStatus : Type 0 where
  pending completed cancelled : TransactionStatus
  unknown : String → TransactionStatus

pub data PaymentMethod : Type 0 where
  credit_card debit_card cash bank_transfer pix other : PaymentMethod
  no_method : String → PaymentMethod

pub data ExpenseType : Type 0 where
  essential discretionary occasional emergency other : ExpenseType
  no_expense : String → ExpenseType

pub data IncomeType : Type 0 where
  salary freelance investment business refund other : IncomeType
  no_income : String → IncomeType

-- `TransactionStatus.Valid`, `PaymentMethod.Valid`, `ExpenseType.Valid` and `isValidIncomeType`
unfoldable pub valid_status : TransactionStatus → Bool
valid_status (unknown s) = false
valid_status t = true

unfoldable pub valid_method : PaymentMethod → Bool
valid_method (no_method s) = false
valid_method t = true

unfoldable pub valid_expense_type : ExpenseType → Bool
valid_expense_type (no_expense s) = false
valid_expense_type t = true

unfoldable pub valid_income_type : IncomeType → Bool
valid_income_type (no_income s) = false
valid_income_type t = true

-- The comparisons of each with "".
abbrev pub status_is_empty : TransactionStatus → Bool
status_is_empty (unknown s) = is_empty s
status_is_empty t = false

abbrev pub method_is_empty : PaymentMethod → Bool
method_is_empty (no_method s) = is_empty s
method_is_empty t = false

abbrev pub expense_type_is_empty : ExpenseType → Bool
expense_type_is_empty (no_expense s) = is_empty s
expense_type_is_empty t = false

abbrev pub income_type_is_empty : IncomeType → Bool
income_type_is_empty (no_income s) = is_empty s
income_type_is_empty t = false

-- `==` on `TransactionStatus`
unfoldable pub same : TransactionStatus → TransactionStatus → Bool
same pending pending = true
same completed completed = true
same cancelled cancelled = true
same (unknown s) (unknown t) = str_eq s t
same s t = false

-- The map `allowed` of `TransitionStatus`.
allowed : TransactionStatus → Option (List TransactionStatus)
allowed pending = some (completed ∷ cancelled ∷ [])
allowed completed = some []
allowed cancelled = some []
allowed (unknown s) = none

-- The body of `TransitionStatus` on the status of the record.
unfoldable pub transition : TransactionStatus → Method TransactionStatus Err
unfolding valid_status same allowed
transition new status =
    if not (valid_status new) then (status, some invalid_status) else elim (allowed status) [
      | none ↦ (status, some invalid_status)
      | some transitions ↦
          if contains_by same new transitions then (new, none) else (status, some status_transition)
    ]
