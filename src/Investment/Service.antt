-- ===== src/Investment/Service.antt =====
-- `CreateInvestment`, `GetInvestment`, `UpdateInvestment` and `DeleteInvestment` of
-- apps/investment-svc/internal/application/service.go on the rows of the table `investments`
-- (internal/infrastructure/persistence/investment_repo.go).
pub mod Stores
pub mod Texts
pub mod Laws
pub mod Records
pub mod Reads
mod Tests
use aureum.Prelude.{ℕ, String, Option, none, some, List, [], ◌∷◌, Result, ok, err}
use aureum.Prelude.Int.{ℤ}
use aureum.Endpoint
use aureum.Endpoint.{Kind, State}
use aureum.Endpoint.Stores.{Faults, is_null, convert, text, number}
use aureum.Investment.Errors.{Err, not_found, database}
use aureum.Investment.Holding.{
  Investment, CreateInvestmentInput, UpdateInvestmentInput, new_investment,
}
use aureum.Investment.Holding.Updates.{apply_update}
use aureum.Investment.Service.Stores.{
  InvestmentResponse, Stored, investment_response, as_investment, EventType, same_event,
  investment_created, investment_updated, investment_deleted,
}
use aureum.Investment.Service.Texts.{
  to_domain_asset_type, to_domain_status, asset_type_text, status_text, or_active, cache_key,
}

pub record CreateInvestmentRequest : Type 0 where
  pub user_id : String
  pub name : String
  pub ticker : String
  pub asset_type : String
  pub quantity : ℤ
  pub average_price : ℤ
  pub broker : String
  pub status : String
  pub idempotency_key : String

pub record UpdateInvestmentRequest : Type 0 where
  pub id : String
  pub user_id : String
  pub name : Option String
  pub ticker : Option String
  pub asset_type : Option String
  pub quantity : Option ℤ
  pub average_price : Option ℤ
  pub broker : Option String
  pub status : Option String
  pub idempotency_key : String

unfoldable pub investment_to_response : Investment → InvestmentResponse
investment_to_response d = record {
  id = d.id;
  user_id = d.user_id;
  name = d.name;
  ticker = d.ticker;
  asset_type = asset_type_text d.asset_type;
  quantity = d.quantity;
  average_price = d.average_price;
  total_invested = d.total_invested;
  status = status_text d.status;
  broker = d.broker;
  created_at = d.created_at;
  updated_at = d.updated_at;
}

-- The investment of a request, with the id that `uuid.New` returns.
unfoldable pub investment_of : ℕ → String → CreateInvestmentRequest → Result Err Investment
investment_of now id req = elim (to_domain_asset_type req.asset_type) [
  | err e ↦ err e
  | ok asset_type ↦ elim (to_domain_status req.status) [
    | err e ↦ err e
    | ok status ↦
        elim (new_investment now record {
          user_id = req.user_id;
          name = req.name;
          ticker = req.ticker;
          asset_type = asset_type;
          quantity = req.quantity;
          average_price = req.average_price;
          broker = req.broker;
          status = or_active status;
        }) [ err e ↦ err e | ok d ↦ ok record d { id = id } ]
  ]
]

-- The input of an update, with the texts that are given converted.
unfoldable pub investment_input : UpdateInvestmentRequest → Result Err UpdateInvestmentInput
investment_input req = elim (convert to_domain_asset_type req.asset_type) [
  | err e ↦ err e
  | ok asset_type ↦ elim (convert to_domain_status req.status) [
    | err e ↦ err e
    | ok status ↦ ok record {
      id = req.id;
      user_id = req.user_id;
      name = req.name;
      ticker = req.ticker;
      asset_type = asset_type;
      quantity = req.quantity;
      average_price = req.average_price;
      broker = req.broker;
      status = status;
    }
  ]
]

-- What an update makes of the investment that was read.
unfoldable pub change_investment : ℕ → UpdateInvestmentRequest → Investment → Result Err Investment
change_investment now req x = elim (investment_input req) [
  | err e ↦ err e
  | ok input ↦
      let (x', failed) = apply_update now input x in elim failed [ some e ↦ err e | none ↦ ok x' ]
]

abbrev pub investment_kind : Kind
investment_kind = record {
  Err = Err;
  not_found = not_found;
  database = database;
  Stored = Stored;
  EventType = EventType;
  same_event = same_event;
  Row = Investment;
  row_id = λ d. d.id;
  owner = λ d. d.user_id;
  is_live = λ d. is_null d.deleted_at;
  set_columns = λ d r. record r {
    name = d.name;
    ticker = d.ticker;
    asset_type = d.asset_type;
    quantity = d.quantity;
    average_price = d.average_price;
    total_invested = d.total_invested;
    status = d.status;
    broker = d.broker;
    updated_at = d.updated_at;
  };
  mark = λ now r. record r { deleted_at = some now; updated_at = now };
  Response = InvestmentResponse;
  respond = investment_to_response;
  pack = investment_response;
  unpack = as_investment;
  cache_key = λ id user_id. cache_key "investment" user_id id;
  created = investment_created;
  updated = investment_updated;
  deleted = investment_deleted;
  payload = λ d.
      ("name", text d.name)
      ∷ ("ticker", text d.ticker)
      ∷ ("asset_type", text (asset_type_text d.asset_type))
      ∷ ("quantity", number d.quantity)
      ∷ ("average_price", number d.average_price)
      ∷ ("total_invested", number d.total_invested)
      ∷ ("broker", text d.broker)
      ∷ [];
  updated_payload = λ d.
      ("name", text d.name)
      ∷ ("ticker", text d.ticker)
      ∷ ("status", text (status_text d.status))
      ∷ ("quantity", number d.quantity)
      ∷ ("average_price", number d.average_price)
      ∷ ("total_invested", number d.total_invested)
      ∷ [];
  CreateRequest = CreateInvestmentRequest;
  create_key = λ req. req.idempotency_key;
  build = investment_of;
  UpdateRequest = UpdateInvestmentRequest;
  update_key = λ req. req.idempotency_key;
  update_id = λ req. req.id;
  update_user = λ req. req.user_id;
  change = change_investment;
}

-- `CreateInvestment`
unfoldable pub create_investment :
    Faults
    → ℕ
    → String
    → CreateInvestmentRequest
    → State investment_kind
    → State investment_kind × Result Err InvestmentResponse
create_investment = Endpoint.create investment_kind

-- `GetInvestment`
unfoldable pub get_investment :
    Faults
    → String
    → String
    → State investment_kind
    → State investment_kind × Result Err InvestmentResponse
get_investment = Endpoint.get investment_kind

-- `UpdateInvestment`
unfoldable pub update_investment :
    Faults
    → ℕ
    → UpdateInvestmentRequest
    → State investment_kind
    → State investment_kind × Result Err InvestmentResponse
update_investment = Endpoint.update investment_kind

-- `DeleteInvestment`
unfoldable pub delete_investment :
    Faults → ℕ → String → String → State investment_kind → State investment_kind × Option Err
delete_investment = Endpoint.delete investment_kind
