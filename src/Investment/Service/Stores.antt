-- ===== src/Investment/Service/Stores.antt =====
-- What the idempotency store and the outbox of the investment service keep
-- (apps/investment-svc/internal/application/dto.go and internal/domain/events.go).
use aureum.Prelude.{ℕ, String, Bool, ◌==◌}
use aureum.Prelude.Int.{ℤ, pos}
use aureum.Endpoint.Stores.{Event}

-- `CreateInvestmentResponse` and `GetInvestmentResponse`, whose fields are the same.
pub record InvestmentResponse : Type 0 where
  pub id : String
  pub user_id : String
  pub name : String
  pub ticker : String
  pub asset_type : String
  pub quantity : ℤ
  pub average_price : ℤ
  pub total_invested : ℤ
  pub status : String
  pub broker : String
  pub created_at : ℕ
  pub updated_at : ℕ

pub record RecordTransactionResponse : Type 0 where
  pub id : String
  pub investment_id : String
  pub user_id : String
  pub transaction_type : String
  pub quantity : ℤ
  pub unit_price : ℤ
  pub total_amount : ℤ
  pub transaction_date : String
  pub notes : String
  pub created_at : ℕ

pub data Stored : Type 0 where
  investment_response : InvestmentResponse → Stored
  transaction_response : RecordTransactionResponse → Stored

-- `json.Unmarshal` of the text into a response: the fields of the same names are read, and the others
-- are left empty.
abbrev pub as_investment : Stored → InvestmentResponse
as_investment (investment_response r) = r
as_investment (transaction_response r) = record {
  id = r.id;
  user_id = r.user_id;
  name = "";
  ticker = "";
  asset_type = "";
  quantity = r.quantity;
  average_price = pos 0;
  total_invested = pos 0;
  status = "";
  broker = "";
  created_at = r.created_at;
  updated_at = 0;
}

abbrev pub as_transaction : Stored → RecordTransactionResponse
as_transaction (transaction_response r) = r
as_transaction (investment_response r) = record {
  id = r.id;
  investment_id = "";
  user_id = r.user_id;
  transaction_type = "";
  quantity = r.quantity;
  unit_price = pos 0;
  total_amount = pos 0;
  transaction_date = "";
  notes = "";
  created_at = r.created_at;
}

-- `EventType` and `InvestmentEvent`.
pub data EventType : Type 0 where
  investment_created investment_updated investment_deleted transaction_recorded : EventType

-- `==` on event types.
event_code : EventType → ℕ
event_code investment_created = 0
event_code investment_updated = 1
event_code investment_deleted = 2
event_code transaction_recorded = 3

unfoldable pub same_event : EventType → EventType → Bool
unfolding event_code
same_event s t = event_code s == event_code t

abbrev pub InvestmentEvent : Type 0
InvestmentEvent = Event EventType
