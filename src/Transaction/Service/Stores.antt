-- ===== src/Transaction/Service/Stores.antt =====
-- The state of apps/transaction-svc/internal/application/service.go that the three kinds of transaction
-- share: the idempotency store (pkg/idempotency), the outbox, and the responses of dto.go.
use aureum.Prelude.{ℕ, String, Bool, ◌==◌}
use aureum.Endpoint.Stores.{Event}
use aureum.Prelude.Int.{ℤ, pos}

-- `CreateIncomeResponse` and `GetIncomeResponse`, whose fields are the same.
pub record IncomeResponse : Type 0 where
  pub id : String
  pub user_id : String
  pub description : String
  pub source : String
  pub income_type : String
  pub received_date : String
  pub received_amount : ℤ
  pub status : String
  pub created_at : ℕ
  pub updated_at : ℕ

pub record FixedExpenseResponse : Type 0 where
  pub id : String
  pub user_id : String
  pub description : String
  pub category : String
  pub day_of_month : ℤ
  pub payment_method : String
  pub status : String
  pub created_at : ℕ
  pub updated_at : ℕ

pub record VariableExpenseResponse : Type 0 where
  pub id : String
  pub user_id : String
  pub description : String
  pub destination : String
  pub category : String
  pub expense_type : String
  pub payment_method : String
  pub payment_date : String
  pub paid_amount : ℤ
  pub status : String
  pub created_at : ℕ
  pub updated_at : ℕ

-- What the idempotency store keeps: the text of a response of any of the three kinds.
pub data Stored : Type 0 where
  income_response : IncomeResponse → Stored
  fixed_expense_response : FixedExpenseResponse → Stored
  variable_expense_response : VariableExpenseResponse → Stored

-- `json.Unmarshal` of the text into a response: the fields of the same names are read, and the others
-- are left empty.
abbrev pub as_income : Stored → IncomeResponse
as_income (income_response r) = r
as_income (fixed_expense_response r) = record {
  id = r.id;
  user_id = r.user_id;
  description = r.description;
  source = "";
  income_type = "";
  received_date = "";
  received_amount = pos 0;
  status = r.status;
  created_at = r.created_at;
  updated_at = r.updated_at;
}
as_income (variable_expense_response r) = record {
  id = r.id;
  user_id = r.user_id;
  description = r.description;
  source = "";
  income_type = "";
  received_date = "";
  received_amount = pos 0;
  status = r.status;
  created_at = r.created_at;
  updated_at = r.updated_at;
}

abbrev pub as_fixed_expense : Stored → FixedExpenseResponse
as_fixed_expense (fixed_expense_response r) = r
as_fixed_expense (income_response r) = record {
  id = r.id;
  user_id = r.user_id;
  description = r.description;
  category = "";
  day_of_month = pos 0;
  payment_method = "";
  status = r.status;
  created_at = r.created_at;
  updated_at = r.updated_at;
}
as_fixed_expense (variable_expense_response r) = record {
  id = r.id;
  user_id = r.user_id;
  description = r.description;
  category = r.category;
  day_of_month = pos 0;
  payment_method = r.payment_method;
  status = r.status;
  created_at = r.created_at;
  updated_at = r.updated_at;
}

abbrev pub as_variable_expense : Stored → VariableExpenseResponse
as_variable_expense (variable_expense_response r) = r
as_variable_expense (income_response r) = record {
  id = r.id;
  user_id = r.user_id;
  description = r.description;
  destination = "";
  category = "";
  expense_type = "";
  payment_method = "";
  payment_date = "";
  paid_amount = pos 0;
  status = r.status;
  created_at = r.created_at;
  updated_at = r.updated_at;
}
as_variable_expense (fixed_expense_response r) = record {
  id = r.id;
  user_id = r.user_id;
  description = r.description;
  destination = "";
  category = r.category;
  expense_type = "";
  payment_method = r.payment_method;
  payment_date = "";
  paid_amount = pos 0;
  status = r.status;
  created_at = r.created_at;
  updated_at = r.updated_at;
}

-- `EventType` and `TransactionEvent` of internal/domain/events.go.
pub data EventType : Type 0 where
  income_created income_updated income_deleted : EventType
  fixed_expense_created fixed_expense_updated fixed_expense_deleted : EventType
  variable_expense_created variable_expense_updated variable_expense_deleted : EventType

-- `==` on event types.
event_code : EventType → ℕ
event_code income_created = 0
event_code income_updated = 1
event_code income_deleted = 2
event_code fixed_expense_created = 3
event_code fixed_expense_updated = 4
event_code fixed_expense_deleted = 5
event_code variable_expense_created = 6
event_code variable_expense_updated = 7
event_code variable_expense_deleted = 8

unfoldable pub same_event : EventType → EventType → Bool
unfolding event_code
same_event s t = event_code s == event_code t

abbrev pub TransactionEvent : Type 0
TransactionEvent = Event EventType
