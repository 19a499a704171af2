-- ===== src/Transaction/Service/Incomes.antt =====
-- `CreateIncome`, `GetIncome`, `UpdateIncome` and `DeleteIncome` of
-- apps/transaction-svc/internal/application/service.go on the rows of the table `incomes`
-- (internal/infrastructure/persistence/income_repo.go).
pub mod Laws
use aureum.Prelude.{ℕ, String, Option, none, some, List, [], ◌∷◌, Result, ok, err}
use aureum.Prelude.Int.{ℤ}
use aureum.Transaction.Errors.{Err, not_found, database}
use aureum.Transaction.Types.{IncomeType, TransactionStatus}
use aureum.Transaction.Income.{
  Income, CreateIncomeInput, UpdateIncomeInput, new_income, apply_update,
}
use aureum.Transaction.Service.Stores.{
  IncomeResponse, income_response, as_income, income_created, income_updated, income_deleted,
  Stored, EventType, same_event,
}
use aureum.Endpoint.Stores.{convert, Faults, is_null, text, number}
use aureum.Transaction.Service.Texts.{
  to_domain_status, to_domain_income_type, status_text, income_type_text, or_pending,
  cache_key_for_user,
}
use aureum.Endpoint
use aureum.Endpoint.{Kind, State}

pub record CreateIncomeRequest : Type 0 where
  pub user_id : String
  pub description : String
  pub source : String
  pub income_type : String
  pub received_date : String
  pub received_amount : ℤ
  pub status : String
  pub idempotency_key : String

pub record UpdateIncomeRequest : Type 0 where
  pub id : String
  pub user_id : String
  pub description : Option String
  pub source : Option String
  pub income_type : Option String
  pub received_date : Option String
  pub received_amount : Option ℤ
  pub status : Option String
  pub idempotency_key : String

unfoldable pub income_to_response : Income → IncomeResponse
income_to_response d = record {
  id = d.id;
  user_id = d.user_id;
  description = d.description;
  source = d.source;
  income_type = income_type_text d.income_type;
  received_date = d.received_date;
  received_amount = d.received_amount;
  status = status_text d.status;
  created_at = d.created_at;
  updated_at = d.updated_at;
}

-- The income of a request, with the id that `uuid.New` returns.
unfoldable pub income_of : ℕ → String → CreateIncomeRequest → Result Err Income
income_of now id req = elim (to_domain_income_type req.income_type) [
  | err e ↦ err e
  | ok income_type ↦ elim (to_domain_status req.status) [
    | err e ↦ err e
    | ok status ↦
        elim (new_income now record {
          user_id = req.user_id;
          description = req.description;
          source = req.source;
          income_type = income_type;
          received_date = req.received_date;
          received_amount = req.received_amount;
          status = or_pending status;
        }) [ err e ↦ err e | ok d ↦ ok record d { id = id } ]
  ]
]

-- The input of an update, with the texts that are given converted.
unfoldable pub income_input : UpdateIncomeRequest → Result Err UpdateIncomeInput
income_input req = elim (convert to_domain_income_type req.income_type) [
  | err e ↦ err e
  | ok income_type ↦ elim (convert to_domain_status req.status) [
    | err e ↦ err e
    | ok status ↦ ok record {
      id = req.id;
      user_id = req.user_id;
      description = req.description;
      source = req.source;
      income_type = income_type;
      received_date = req.received_date;
      received_amount = req.received_amount;
      status = status;
    }
  ]
]

-- What an update makes of the income that was read.
unfoldable pub change_income : ℕ → UpdateIncomeRequest → Income → Result Err Income
change_income now req x = elim (income_input req) [
  | err e ↦ err e
  | ok input ↦
      let (x', failed) = apply_update now input x in elim failed [ some e ↦ err e | none ↦ ok x' ]
]

abbrev pub income_kind : Kind
income_kind = record {
  Err = Err;
  not_found = not_found;
  database = database;
  Stored = Stored;
  EventType = EventType;
  same_event = same_event;
  Row = Income;
  row_id = λ d. d.id;
  owner = λ d. d.user_id;
  is_live = λ d. is_null d.deleted_at;
  set_columns = λ d r. record r {
    description = d.description;
    source = d.source;
    income_type = d.income_type;
    received_date = d.received_date;
    received_amount = d.received_amount;
    status = d.status;
    updated_at = d.updated_at;
  };
  mark = λ now r. record r { deleted_at = some now; updated_at = now };
  Response = IncomeResponse;
  respond = income_to_response;
  pack = income_response;
  unpack = as_income;
  cache_key = cache_key_for_user "income";
  created = income_created;
  updated = income_updated;
  deleted = income_deleted;
  payload = λ d.
      ("description", text d.description)
      ∷ ("source", text d.source)
      ∷ ("income_type", text (income_type_text d.income_type))
      ∷ ("received_date", text d.received_date)
      ∷ ("received_amount", number d.received_amount)
      ∷ [];
  updated_payload = λ d. ("status", text (status_text d.status)) ∷ [];
  CreateRequest = CreateIncomeRequest;
  create_key = λ req. req.idempotency_key;
  build = income_of;
  UpdateRequest = UpdateIncomeRequest;
  update_key = λ req. req.idempotency_key;
  update_id = λ req. req.id;
  update_user = λ req. req.user_id;
  change = change_income;
}

-- `CreateIncome`
unfoldable pub create_income :
    Faults
    → ℕ
    → String
    → CreateIncomeRequest
    → State income_kind
    → State income_kind × Result Err IncomeResponse
create_income = Endpoint.create income_kind

-- `GetIncome`
unfoldable pub get_income :
    Faults → String → String → State income_kind → State income_kind × Result Err IncomeResponse
get_income = Endpoint.get income_kind

-- `UpdateIncome`
unfoldable pub update_income :
    Faults
    → ℕ
    → UpdateIncomeRequest
    → State income_kind
    → State income_kind × Result Err IncomeResponse
update_income = Endpoint.update income_kind

-- `DeleteIncome`
unfoldable pub delete_income :
    Faults → ℕ → String → String → State income_kind → State income_kind × Option Err
delete_income = Endpoint.delete income_kind
