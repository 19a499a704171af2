-- ===== src/Debt/Tables.antt =====
-- apps/debt-svc/internal/infrastructure/persistence: the rows of the tables `debts`, `payments`,
-- `amortization_schedules` and `outbox_events`, with the statements of debt_repo.go that the service
-- makes on a single debt.
pub mod Rows
use aureum.Prelude.{
  ℕ, String, Bool, true, false, ◌&&◌, Option, none, some, List, [], ◌∷◌, str_eq, if◌then◌else◌,
}
use aureum.Prelude.Int.{ℤ}
use aureum.Debt.Account.{Debt, DebtStatus}
use aureum.Debt.Payment.{Payment}
use aureum.Debt.Amortization.{AmortizationSchedule}

-- The events that the service writes to the outbox.
pub record PaymentRegistered : Type 0 where
  pub entity_id : String
  pub user_id : String
  pub payment_id : String
  pub amount : ℤ
  pub payment_date : String
  pub remaining_amount : ℤ
  pub debt_status : DebtStatus
  pub timestamp : ℕ

pub record DebtDeleted : Type 0 where
  pub entity_id : String
  pub user_id : String
  pub timestamp : ℕ

-- The payload of a creation has the columns of the debt.
pub record DebtCreated : Type 0 where
  pub debt : Debt
  pub timestamp : ℕ

pub record DebtUpdated : Type 0 where
  pub entity_id : String
  pub user_id : String
  pub status : DebtStatus
  pub timestamp : ℕ

pub data DebtEvent : Type 0 where
  debt_created : DebtCreated → DebtEvent
  debt_updated : DebtUpdated → DebtEvent
  payment_registered : PaymentRegistered → DebtEvent
  debt_deleted : DebtDeleted → DebtEvent

pub record Tables : Type 0 where
  pub debts : List Debt
  pub payments : List Payment
  pub schedules : List (String × AmortizationSchedule)  -- by debt
  pub events : List DebtEvent

-- `deleted_at IS NULL`
is_live : Option ℕ → Bool
is_live none = true
is_live (some t) = false

-- `WHERE id=$1 AND user_id=$2 AND deleted_at IS NULL`
unfoldable pub find_debt : String → String → List Debt → Option Debt
unfolding is_live
find_debt id user_id [] = none
find_debt id user_id (r ∷ rs) =
    let rest = find_debt id user_id rs in
    if str_eq r.id id && str_eq r.user_id user_id && is_live r.deleted_at then some r else rest

-- The columns that the update of a debt sets.
abbrev pub set_debt : Debt → Debt → Debt
set_debt d r = record r {
  name = d.name;
  description = d.description;
  debt_type = d.debt_type;
  total_amount = d.total_amount;
  remaining_amount = d.remaining_amount;
  interest_rate = d.interest_rate;
  start_date = d.start_date;
  expected_end_date = d.expected_end_date;
  status = d.status;
  creditor = d.creditor;
  updated_at = d.updated_at;
}

-- `UPDATE debts SET ... WHERE id=$12 AND deleted_at IS NULL`
unfoldable pub update_debt : Debt → List Debt → List Debt
unfolding is_live
update_debt d [] = []
update_debt d (r ∷ rs) =
    (if str_eq r.id d.id && is_live r.deleted_at then set_debt d r else r) ∷ update_debt d rs

-- `UPDATE debts SET deleted_at=$1, updated_at=$1 WHERE id=$2 AND user_id=$3 AND deleted_at IS NULL`
unfoldable pub delete_debt_row : ℕ → String → String → List Debt → List Debt
unfolding is_live
delete_debt_row now id user_id [] = []
delete_debt_row now id user_id (r ∷ rs) =
    (if str_eq r.id id && str_eq r.user_id user_id && is_live r.deleted_at
      then record r { deleted_at = some now; updated_at = now }
      else r)
    ∷ delete_debt_row now id user_id rs
