-- ===== src/Transaction/Service/FixedExpenses.antt =====
-- `CreateFixedExpense`, `GetFixedExpense`, `UpdateFixedExpense` and `DeleteFixedExpense` of
-- apps/transaction-svc/internal/application/service.go on the rows of the table `fixed_expenses`
-- (internal/infrastructure/persistence/fixed_expense_repo.go).
pub mod Laws
use aureum.Prelude.{ℕ, String, Option, none, some, List, [], ◌∷◌, Result, ok, err}
use aureum.Prelude.Int.{ℤ}
use aureum.Transaction.Errors.{Err, not_found, database}
use aureum.Transaction.FixedExpense.{
  FixedExpense, CreateFixedExpenseInput, UpdateFixedExpenseInput, new_fixed_expense, apply_update,
}
use aureum.Transaction.Service.Stores.{
  FixedExpenseResponse, fixed_expense_response, as_fixed_expense, fixed_expense_created,
  fixed_expense_updated, fixed_expense_deleted, Stored, EventType, same_event,
}
use aureum.Endpoint.Stores.{convert, Faults, is_null, text, number}
use aureum.Transaction.Service.Texts.{
  payment_method_text, status_text, to_domain_payment_method, to_domain_status, or_pending,
  cache_key,
}
use aureum.Endpoint
use aureum.Endpoint.{Kind, State}

pub record CreateFixedExpenseRequest : Type 0 where
  pub user_id : String
  pub description : String
  pub category : String
  pub day_of_month : ℤ
  pub payment_method : String
  pub status : String
  pub idempotency_key : String

pub record UpdateFixedExpenseRequest : Type 0 where
  pub id : String
  pub user_id : String
  pub description : Option String
  pub category : Option String
  pub day_of_month : Option ℤ
  pub payment_method : Option String
  pub status : Option String
  pub idempotency_key : String

unfoldable pub fixed_expense_to_response : FixedExpense → FixedExpenseResponse
fixed_expense_to_response d = record {
  id = d.id;
  user_id = d.user_id;
  description = d.description;
  category = d.category;
  day_of_month = d.day_of_month;
  payment_method = payment_method_text d.payment_method;
  status = status_text d.status;
  created_at = d.created_at;
  updated_at = d.updated_at;
}

-- The expense of a request, with the id that `uuid.New` returns.
unfoldable pub fixed_expense_of : ℕ → String → CreateFixedExpenseRequest → Result Err FixedExpense
fixed_expense_of now id req = elim (to_domain_payment_method req.payment_method) [
  | err e ↦ err e
  | ok payment_method ↦ elim (to_domain_status req.status) [
    | err e ↦ err e
    | ok status ↦
        elim (new_fixed_expense now record {
          user_id = req.user_id;
          description = req.description;
          category = req.category;
          day_of_month = req.day_of_month;
          payment_method = payment_method;
          status = or_pending status;
        }) [ err e ↦ err e | ok d ↦ ok record d { id = id } ]
  ]
]

-- The input of an update, with the texts that are given converted.
unfoldable pub fixed_expense_input : UpdateFixedExpenseRequest → Result Err UpdateFixedExpenseInput
fixed_expense_input req = elim (convert to_domain_payment_method req.payment_method) [
  | err e ↦ err e
  | ok payment_method ↦ elim (convert to_domain_status req.status) [
    | err e ↦ err e
    | ok status ↦ ok record {
      id = req.id;
      user_id = req.user_id;
      description = req.description;
      category = req.category;
      day_of_month = req.day_of_month;
      payment_method = payment_method;
      status = status;
    }
  ]
]

-- What an update makes of the expense that was read.
unfoldable pub change_fixed_expense :
    ℕ → UpdateFixedExpenseRequest → FixedExpense → Result Err FixedExpense
change_fixed_expense now req x = elim (fixed_expense_input req) [
  | err e ↦ err e
  | ok input ↦
      let (x', failed) = apply_update now input x in elim failed [ some e ↦ err e | none ↦ ok x' ]
]

abbrev pub fixed_expense_kind : Kind
fixed_expense_kind = record {
  Err = Err;
  not_found = not_found;
  database = database;
  Stored = Stored;
  EventType = EventType;
  same_event = same_event;
  Row = FixedExpense;
  row_id = λ d. d.id;
  owner = λ d. d.user_id;
  is_live = λ d. is_null d.deleted_at;
  set_columns = λ d r. record r {
    description = d.description;
    category = d.category;
    day_of_month = d.day_of_month;
    payment_method = d.payment_method;
    status = d.status;
    updated_at = d.updated_at;
  };
  mark = λ now r. record r { deleted_at = some now; updated_at = now };
  Response = FixedExpenseResponse;
  respond = fixed_expense_to_response;
  pack = fixed_expense_response;
  unpack = as_fixed_expense;
  cache_key = λ id user_id. cache_key "fixed_expense" id;
  created = fixed_expense_created;
  updated = fixed_expense_updated;
  deleted = fixed_expense_deleted;
  payload = λ d.
      ("description", text d.description)
      ∷ ("category", text d.category)
      ∷ ("day_of_month", number d.day_of_month)
      ∷ ("payment_method", text (payment_method_text d.payment_method))
      ∷ [];
  updated_payload = λ d. ("status", text (status_text d.status)) ∷ [];
  CreateRequest = CreateFixedExpenseRequest;
  create_key = λ req. req.idempotency_key;
  build = fixed_expense_of;
  UpdateRequest = UpdateFixedExpenseRequest;
  update_key = λ req. req.idempotency_key;
  update_id = λ req. req.id;
  update_user = λ req. req.user_id;
  change = change_fixed_expense;
}

-- `CreateFixedExpense`
unfoldable pub create_fixed_expense :
    Faults
    → ℕ
    → String
    → CreateFixedExpenseRequest
    → State fixed_expense_kind
    → State fixed_expense_kind × Result Err FixedExpenseResponse
create_fixed_expense = Endpoint.create fixed_expense_kind

-- `GetFixedExpense`
unfoldable pub get_fixed_expense :
    Faults
    → String
    → String
    → State fixed_expense_kind
    → State fixed_expense_kind × Result Err FixedExpenseResponse
get_fixed_expense = Endpoint.get fixed_expense_kind

-- `UpdateFixedExpense`
unfoldable pub update_fixed_expense :
    Faults
    → ℕ
    → UpdateFixedExpenseRequest
    → State fixed_expense_kind
    → State fixed_expense_kind × Result Err FixedExpenseResponse
update_fixed_expense = Endpoint.update fixed_expense_kind

-- `DeleteFixedExpense`
unfoldable pub delete_fixed_expense :
    Faults → ℕ → String → String → State fixed_expense_kind → State fixed_expense_kind × Option Err
delete_fixed_expense faults now id user_id =
    Endpoint.delete fixed_expense_kind faults now id user_id
