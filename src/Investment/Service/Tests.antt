-- ===== src/Investment/Service/Tests.antt =====
-- The requests of the investment service at concrete states.
use aureum.Prelude.{◌≡◌, refl, false, none, some, List, [], ◌∷◌, ok}
use aureum.Prelude.Dict.{lookup}
use aureum.Prelude.Int.{pos}
use aureum.Endpoint.{State, find_row}
use aureum.Endpoint.Keys.{has_no_colon}
use aureum.Endpoint.Outbox.{alive_after}
use aureum.Endpoint.Runs.{Request, creates, gets, serve_all, IsWell, read_row}
use aureum.Endpoint.Stores.{Faults}
use aureum.Investment.Holding.{Investment, stock, active}
use aureum.Investment.Service.{
  CreateInvestmentRequest, investment_kind, investment_to_response, get_investment,
}
use aureum.Investment.Service.Laws.{IsProper}
use aureum.Investment.Service.Texts.{cache_key}
use aureum.Investment.Service.Reads.{get_investment-serve_all}
use aureum.Investment.Service.Records.{World}
use aureum.Investment.Service.Records.Ledger.{position}
use aureum.Investment.Service.Records.Runs.{Call, record_all, record_all_books, record_all_stale}

abbrev no_faults : Faults
no_faults = record {
  key_get = false;
  key_store = false;
  cache_get = false;
  cache_set = false;
  cache_delete = false;
  find = false;
  begin = false;
  write = false;
  save_event = false;
  commit = false;
}

abbrev no_holdings : State investment_kind
no_holdings = record { rows = []; cache = []; keys = []; events = [] }

no_holdings-IsWell : IsWell investment_kind IsProper no_holdings
unfolding lookup find_row alive_after
no_holdings-IsWell = record {
  cached = record { all = tt; unique = tt; coherent = λ key r h. cc h };
  recorded = λ id u. refl;
}

abbrev shares : CreateInvestmentRequest
shares = record {
  user_id = "u1";
  name = "Stock";
  ticker = "AAA3";
  asset_type = "stock";
  quantity = pos 3;
  average_price = pos 30;
  broker = "";
  status = "active";
  idempotency_key = "k1";
}

abbrev requests : List (Request investment_kind)
requests = creates no_faults 1 "h1" shares ∷ gets no_faults "h1" "u1" ∷ []

get_investment-serve_all_example :
    (get_investment no_faults "h1" "u2" (serve_all investment_kind requests no_holdings)).1
    ≡ read_row investment_kind "h1" "u2" (serve_all investment_kind requests no_holdings)
unfolding has_no_colon
get_investment-serve_all_example =
    get_investment-serve_all requests no_faults "h1" "u2" no_holdings ((refl, tt), (tt, tt))
      no_holdings-IsWell refl refl

abbrev holding : Investment
holding = record {
  id = "h1";
  user_id = "u1";
  name = "Stock";
  ticker = "AAA3";
  asset_type = stock;
  quantity = pos 3;
  average_price = pos 30;
  total_invested = pos 90;
  status = active;
  broker = "";
  created_at = 1;
  updated_at = 1;
  deleted_at = none;
}

-- A world in which the holding has been read.
abbrev world : World
world = record {
  holdings = record {
    rows = holding ∷ [];
    cache = ("inv:investment:u1:h1", investment_to_response holding) ∷ [];
    keys = [];
    events = [];
  };
  transactions = [];
}

abbrev purchase : Call
purchase = record {
  save_fails = false;
  faults = no_faults;
  now = 2;
  id = "t1";
  req = record {
    user_id = "u1";
    investment_id = "h1";
    transaction_type = "buy";
    quantity = pos 2;
    unit_price = pos 40;
    transaction_date = "2026-01-02";
    notes = "";
    idempotency_key = "";
  };
}

abbrev sale : Call
sale = record purchase {
  id = "t2";
  req = record (purchase.req) { transaction_type = "sell"; quantity = pos 1 };
}

record_all_books_example :
    (y : Investment) × (find_row investment_kind "h1" "u1"
        (record_all (purchase ∷ sale ∷ []) world).holdings.rows
      ≡ some y)
    × (y.quantity ≡ position "h1" (pos 3) (record_all (purchase ∷ sale ∷ []) world).transactions)
unfolding find_row
record_all_books_example =
    record_all_books "h1" "u1" (purchase ∷ sale ∷ []) world (tt, tt) refl refl

record_all_stale_example :
    (get_investment no_faults "h1" "u1" (record_all (purchase ∷ sale ∷ []) world).holdings).1
    ≡ ok (investment_to_response holding)
unfolding lookup cache_key
record_all_stale_example =
    record_all_stale no_faults "h1" "u1" (purchase ∷ sale ∷ []) world refl refl
