-- ===== src/Debt/Account.antt =====
-- apps/debt-svc/internal/domain/debt.go: the debt, its payments and its status.
pub mod Balance
pub mod Status
pub mod Updates
use aureum.Prelude.{
  ℕ, String, Bool, true, false, not, ◌&&◌, ◌||◌, Option, none, some, List, [], ◌∷◌, str_eq,
  if◌then◌else◌, is_empty, contains_by, Result, ok, guards, Method, modify, fail_if, when_some,
  ◌>>◌, statements,
}
use aureum.Prelude.Int.{ℤ, pos, leb_ℤ, ltb_ℤ, eqb_ℤ, sub64}
use aureum.Debt.Errors.{
  Err, missing_field, invalid_debt_type, negative_amount, invalid_status, access_denied,
  status_transition, debt_already_paid, payment_exceeds_balance,
}

-- `DebtType`, a string type: `unlisted` is any text that no constant names.
pub data DebtType : Type 0 where
  personal_loan student_loan mortgage car_loan credit_card_debt medical_debt other : DebtType
  unlisted : String → DebtType

-- `DebtStatus`, a string type, with the same reading of `unknown`.
pub data DebtStatus : Type 0 where
  active paused paid_off defaulted settled : DebtStatus
  unknown : String → DebtStatus

-- `DebtType.Valid`
unfoldable pub valid_type : DebtType → Bool
valid_type (unlisted s) = false
valid_type t = true

-- `DebtStatus.Valid`
unfoldable pub valid_status : DebtStatus → Bool
valid_status (unknown s) = false
valid_status s = true

-- `debtType == ""` and `status == ""`
abbrev type_is_empty : DebtType → Bool
type_is_empty (unlisted s) = is_empty s
type_is_empty t = false

abbrev status_is_empty : DebtStatus → Bool
status_is_empty (unknown s) = is_empty s
status_is_empty t = false

-- `==` on `DebtStatus`
unfoldable pub same : DebtStatus → DebtStatus → Bool
same active active = true
same paused paused = true
same paid_off paid_off = true
same defaulted defaulted = true
same settled settled = true
same (unknown s) (unknown t) = str_eq s t
same s t = false

pub record Debt : Type 0 where
  pub id : String
  pub user_id : String
  pub name : String
  pub description : String
  pub debt_type : DebtType
  pub total_amount : ℤ  -- int64
  pub remaining_amount : ℤ  -- int64
  pub interest_rate : ℤ  -- int64
  pub start_date : String
  pub expected_end_date : String
  pub status : DebtStatus
  pub creditor : String
  pub created_at : ℕ
  pub updated_at : ℕ
  pub deleted_at : Option ℕ

pub record CreateDebtInput : Type 0 where
  pub user_id : String
  pub name : String
  pub description : String
  pub debt_type : DebtType
  pub total_amount : ℤ
  pub interest_rate : ℤ
  pub start_date : String
  pub expected_end_date : String
  pub status : DebtStatus
  pub creditor : String

pub record UpdateDebtInput : Type 0 where
  pub id : String
  pub user_id : String
  pub name : Option String
  pub description : Option String
  pub debt_type : Option DebtType
  pub total_amount : Option ℤ
  pub interest_rate : Option ℤ
  pub expected_end_date : Option String
  pub status : Option DebtStatus
  pub creditor : Option String

-- The guards of `NewDebt`, each with the error that it returns.
debt_guards : CreateDebtInput → List (Bool × Err)
unfolding valid_type valid_status
debt_guards input =
    (is_empty input.user_id, missing_field)
    ∷ (is_empty input.name, missing_field)
    ∷ (type_is_empty input.debt_type || not (valid_type input.debt_type), invalid_debt_type)
    ∷ (leb_ℤ input.total_amount (pos 0), negative_amount)
    ∷ (is_empty input.start_date, missing_field)
    ∷ (status_is_empty input.status, missing_field)
    ∷ (not (valid_status input.status), invalid_status)
    ∷ []

-- The debt that it returns past them. The id is set by the caller, and is empty until then.
fresh_debt : ℕ → CreateDebtInput → Debt
fresh_debt now input = record {
  id = "";
  user_id = input.user_id;
  name = input.name;
  description = input.description;
  debt_type = input.debt_type;
  total_amount = input.total_amount;
  remaining_amount = input.total_amount;
  interest_rate = input.interest_rate;
  start_date = input.start_date;
  expected_end_date = input.expected_end_date;
  status = input.status;
  creditor = input.creditor;
  created_at = now;
  updated_at = now;
  deleted_at = none;
}

-- `NewDebt`
unfoldable pub new_debt : ℕ → CreateDebtInput → Result Err Debt
unfolding debt_guards fresh_debt
new_debt now input = guards (debt_guards input) (ok (fresh_debt now input))

-- The map `allowed` of `TransitionStatus`.
allowed : DebtStatus → Option (List DebtStatus)
allowed active = some (paused ∷ paid_off ∷ defaulted ∷ settled ∷ [])
allowed paused = some (active ∷ paid_off ∷ defaulted ∷ settled ∷ [])
allowed paid_off = some []
allowed defaulted = some (settled ∷ [])
allowed settled = some []
allowed (unknown s) = none

-- `Debt.TransitionStatus`, which leaves the time of the update to its caller.
unfoldable pub transition_status : DebtStatus → Method Debt Err
unfolding valid_status same allowed
transition_status new d =
    if not (valid_status new) then (d, some invalid_status) else elim (allowed d.status) [
      | none ↦ (d, some invalid_status)
      | some transitions ↦
          if contains_by same new transitions
          then (record d { status = new }, none)
          else (d, some status_transition)
    ]

-- `d.RemainingAmount -= amount`, and the status of a debt with nothing left.
reduce : ℕ → ℤ → Debt → Debt
reduce now amount d =
    let left = sub64 d.remaining_amount amount in
    record d {
      remaining_amount = left;
      status = if eqb_ℤ left (pos 0) then paid_off else d.status;
      updated_at = now;
    }

-- `Debt.ApplyPayment`
unfoldable pub apply_payment : ℕ → ℤ → Method Debt Err
unfolding same reduce
apply_payment now amount d =
    if leb_ℤ amount (pos 0)
    then (d, some negative_amount)
    else if same d.status paid_off
    then (d, some debt_already_paid)
    else if ltb_ℤ d.remaining_amount amount
    then (d, some payment_exceeds_balance)
    else (reduce now amount d, none)
