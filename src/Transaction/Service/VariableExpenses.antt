-- ===== src/Transaction/Service/VariableExpenses.antt =====
-- `CreateVariableExpense`, `GetVariableExpense`, `UpdateVariableExpense` and `DeleteVariableExpense` of
-- apps/transaction-svc/internal/application/service.go on the rows of the table `variable_expenses`
-- (internal/infrastructure/persistence/variable_expense_repo.go).
pub mod Laws
use aureum.Prelude.{ℕ, String, Option, none, some, List, [], ◌∷◌, Result, ok, err}
use aureum.Prelude.Int.{ℤ}
use aureum.Transaction.Errors.{Err, not_found, database}
use aureum.Transaction.VariableExpense.{
  VariableExpense, CreateVariableExpenseInput, UpdateVariableExpenseInput, new_variable_expense,
  apply_update,
}
use aureum.Transaction.Service.Stores.{
  VariableExpenseResponse, variable_expense_response, as_variable_expense, variable_expense_created,
  variable_expense_updated, variable_expense_deleted, Stored, EventType, same_event,
}
use aureum.Endpoint.Stores.{convert, Faults, is_null, text, number}
use aureum.Transaction.Service.Texts.{
  expense_type_text, payment_method_text, status_text, to_domain_expense_type,
  to_domain_payment_method, to_domain_status, or_pending, cache_key,
}
use aureum.Endpoint
use aureum.Endpoint.{Kind, State}

pub record CreateVariableExpenseRequest : Type 0 where
  pub user_id : String
  pub description : String
  pub destination : String
  pub category : String
  pub expense_type : String
  pub payment_method : String
  pub payment_date : String
  pub paid_amount : ℤ
  pub status : String
  pub idempotency_key : String

pub record UpdateVariableExpenseRequest : Type 0 where
  pub id : String
  pub user_id : String
  pub description : Option String
  pub destination : Option String
  pub category : Option String
  pub expense_type : Option String
  pub payment_method : Option String
  pub payment_date : Option String
  pub paid_amount : Option ℤ
  pub status : Option String
  pub idempotency_key : String

unfoldable pub variable_expense_to_response : VariableExpense → VariableExpenseResponse
variable_expense_to_response d = record {
  id = d.id;
  user_id = d.user_id;
  description = d.description;
  destination = d.destination;
  category = d.category;
  expense_type = expense_type_text d.expense_type;
  payment_method = payment_method_text d.payment_method;
  payment_date = d.payment_date;
  paid_amount = d.paid_amount;
  status = status_text d.status;
  created_at = d.created_at;
  updated_at = d.updated_at;
}

-- The expense of a request, with the id that `uuid.New` returns.
unfoldable pub variable_expense_of :
    ℕ → String → CreateVariableExpenseRequest → Result Err VariableExpense
variable_expense_of now id req = elim (to_domain_expense_type req.expense_type) [
  | err e ↦ err e
  | ok expense_type ↦ elim (to_domain_payment_method req.payment_method) [
    | err e ↦ err e
    | ok payment_method ↦ elim (to_domain_status req.status) [
      | err e ↦ err e
      | ok status ↦
          elim (new_variable_expense now record {
            user_id = req.user_id;
            description = req.description;
            destination = req.destination;
            category = req.category;
            expense_type = expense_type;
            payment_method = payment_method;
            payment_date = req.payment_date;
            paid_amount = req.paid_amount;
            status = or_pending status;
          }) [ err e ↦ err e | ok d ↦ ok record d { id = id } ]
    ]
  ]
]

-- The input of an update, with the texts that are given converted.
unfoldable pub variable_expense_input :
    UpdateVariableExpenseRequest → Result Err UpdateVariableExpenseInput
variable_expense_input req = elim (convert to_domain_expense_type req.expense_type) [
  | err e ↦ err e
  | ok expense_type ↦ elim (convert to_domain_payment_method req.payment_method) [
    | err e ↦ err e
    | ok payment_method ↦ elim (convert to_domain_status req.status) [
      | err e ↦ err e
      | ok status ↦ ok record {
        id = req.id;
        user_id = req.user_id;
        description = req.description;
        destination = req.destination;
        category = req.category;
        expense_type = expense_type;
        payment_method = payment_method;
        payment_date = req.payment_date;
        paid_amount = req.paid_amount;
        status = status;
      }
    ]
  ]
]

-- What an update makes of the expense that was read.
unfoldable pub change_variable_expense :
    ℕ → UpdateVariableExpenseRequest → VariableExpense → Result Err VariableExpense
change_variable_expense now req x = elim (variable_expense_input req) [
  | err e ↦ err e
  | ok input ↦
      let (x', failed) = apply_update now input x in elim failed [ some e ↦ err e | none ↦ ok x' ]
]

abbrev pub variable_expense_kind : Kind
variable_expense_kind = record {
  Err = Err;
  not_found = not_found;
  database = database;
  Stored = Stored;
  EventType = EventType;
  same_event = same_event;
  Row = VariableExpense;
  row_id = λ d. d.id;
  owner = λ d. d.user_id;
  is_live = λ d. is_null d.deleted_at;
  set_columns = λ d r. record r {
    description = d.description;
    destination = d.destination;
    category = d.category;
    expense_type = d.expense_type;
    payment_method = d.payment_method;
    payment_date = d.payment_date;
    paid_amount = d.paid_amount;
    status = d.status;
    updated_at = d.updated_at;
  };
  mark = λ now r. record r { deleted_at = some now; updated_at = now };
  Response = VariableExpenseResponse;
  respond = variable_expense_to_response;
  pack = variable_expense_response;
  unpack = as_variable_expense;
  cache_key = λ id user_id. cache_key "variable_expense" id;
  created = variable_expense_created;
  updated = variable_expense_updated;
  deleted = variable_expense_deleted;
  payload = λ d.
      ("description", text d.description)
      ∷ ("destination", text d.destination)
      ∷ ("category", text d.category)
      ∷ ("expense_type", text (expense_type_text d.expense_type))
      ∷ ("payment_method", text (payment_method_text d.payment_method))
      ∷ ("payment_date", text d.payment_date)
      ∷ ("paid_amount", number d.paid_amount)
      ∷ [];
  updated_payload = λ d. ("status", text (status_text d.status)) ∷ [];
  CreateRequest = CreateVariableExpenseRequest;
  create_key = λ req. req.idempotency_key;
  build = variable_expense_of;
  UpdateRequest = UpdateVariableExpenseRequest;
  update_key = λ req. req.idempotency_key;
  update_id = λ req. req.id;
  update_user = λ req. req.user_id;
  change = change_variable_expense;
}

-- `CreateVariableExpense`
unfoldable pub create_variable_expense :
    Faults
    → ℕ
    → String
    → CreateVariableExpenseRequest
    → State variable_expense_kind
    → State variable_expense_kind × Result Err VariableExpenseResponse
create_variable_expense = Endpoint.create variable_expense_kind

-- `GetVariableExpense`
unfoldable pub get_variable_expense :
    Faults
    → String
    → String
    → State variable_expense_kind
    → State variable_expense_kind × Result Err VariableExpenseResponse
get_variable_expense = Endpoint.get variable_expense_kind

-- `UpdateVariableExpense`
unfoldable pub update_variable_expense :
    Faults
    → ℕ
    → UpdateVariableExpenseRequest
    → State variable_expense_kind
    → State variable_expense_kind × Result Err VariableExpenseResponse
update_variable_expense = Endpoint.update variable_expense_kind

-- `DeleteVariableExpense`
unfoldable pub delete_variable_expense :
    Faults
    → ℕ
    → String
    → String
    → State variable_expense_kind
    → State variable_expense_kind × Option Err
delete_variable_expense faults now id user_id =
    Endpoint.delete variable_expense_kind faults now id user_id
