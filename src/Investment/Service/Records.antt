-- ===== src/Investment/Service/Records.antt =====
-- `RecordTransaction` of apps/investment-svc/internal/application/service.go: purchases, sales and
-- income of a holding.
pub mod Ledger
pub mod Runs
use aureum.Prelude.{
  ℕ, String, Bool, false, Option, none, some, List, [], ◌∷◌, ◌++◌, if◌then◌else◌, Result, ok, err,
}
use aureum.Prelude.Int.{ℤ}
use aureum.Endpoint.{State, find_row, update_row}
use aureum.Endpoint.Stores.{Faults, Event, text, number, found, key_store, replayed}
use aureum.Investment.Errors.{Err, not_found, database}
use aureum.Investment.Holding.{Investment, update_average_price}
use aureum.Investment.Holding as Holding
use aureum.Investment.Transaction.{
  InvestmentTransaction, TransactionType, buy, sell, new_transaction,
}
use aureum.Investment.Service.{investment_kind}
use aureum.Investment.Service.Stores.{
  RecordTransactionResponse, transaction_response, as_transaction, InvestmentEvent,
  transaction_recorded,
}
use aureum.Investment.Service.Texts.{to_domain_transaction_type, transaction_type_text}

pub record RecordTransactionRequest : Type 0 where
  pub user_id : String
  pub investment_id : String
  pub transaction_type : String
  pub quantity : ℤ
  pub unit_price : ℤ
  pub transaction_date : String
  pub notes : String
  pub idempotency_key : String

-- The rows of `investments` with their cache, the keys and the events, and the rows of
-- `investment_transactions`.
pub record World : Type 0 where
  pub holdings : State investment_kind
  pub transactions : List InvestmentTransaction

-- The transaction of a request, with the id that `uuid.New` returns.
unfoldable pub transaction_of :
    ℕ → String → RecordTransactionRequest → Result Err InvestmentTransaction
transaction_of now id req = elim (to_domain_transaction_type req.transaction_type) [
  | err e ↦ err e
  | ok transaction_type ↦
      elim (new_transaction now record {
        user_id = req.user_id;
        investment_id = req.investment_id;
        transaction_type = transaction_type;
        quantity = req.quantity;
        unit_price = req.unit_price;
        transaction_date = req.transaction_date;
        notes = req.notes;
      }) [ err e ↦ err e | ok t ↦ ok record t { id = id } ]
]

-- The `switch` on the type: the holding with the purchase or the sale, `none` in the result where the
-- row is not written, and `none` for a panic.
unfoldable pub booking :
    TransactionType → ℕ → ℤ → ℤ → Investment → Option (Result Err (Option Investment))
booking buy now quantity price x = elim (update_average_price now quantity price x) [
  | none ↦ none
  | some x' ↦ some (ok (some x'))
]
booking sell now quantity price x = elim (Holding.sell now quantity price x) [
  | none ↦ none
  | some (x', failed) ↦ elim failed [ none ↦ some (ok (some x')) | some e ↦ some (err e) ]
]
booking transaction_type now quantity price x = some (ok none)

pub recorded_event : ℕ → InvestmentTransaction → InvestmentEvent
recorded_event now t = record {
  event_type = transaction_recorded;
  entity_id = t.investment_id;
  user_id = t.user_id;
  payload =
      ("transaction_id", text t.id)
      ∷ ("transaction_type", text (transaction_type_text t.transaction_type))
      ∷ ("quantity", number t.quantity)
      ∷ ("unit_price", number t.unit_price)
      ∷ ("total_amount", number t.total_amount)
      ∷ [];
  timestamp = now;
}

-- The row that the holding becomes, if it is written.
unfoldable pub book_rows : Option Investment → List Investment → List Investment
book_rows none rows = rows
book_rows (some x) rows = update_row investment_kind x rows

-- Whether the `UPDATE` of the holding is made and fails.
unfoldable pub update_fails : Faults → Option Investment → Bool
update_fails faults none = false
update_fails faults (some x) = faults.write

-- The writes of the transaction and the commit. The first choice is whether the insertion into
-- `investment_transactions` fails.
unfoldable pub write_record :
    Bool → Faults → ℕ → InvestmentTransaction → Option Investment → World → Result Err World
write_record save_fails faults now t x w =
    if update_fails faults x
    then err database
    else if save_fails
    then err database
    else if faults.save_event
    then err database
    else if faults.commit
    then err database
    else ok record {
      holdings = record (w.holdings) {
        rows = book_rows x w.holdings.rows;
        events = w.holdings.events ++ recorded_event now t ∷ [];
      };
      transactions = w.transactions ++ t ∷ [];
    }

-- The transaction of `WithTx`; `none` is a panic, after which nothing is committed.
unfoldable pub record_with :
    Bool → Faults → ℕ → InvestmentTransaction → World → Option (Result Err World)
record_with save_fails faults now t w =
    if faults.begin
    then some (err database)
    else elim (found database not_found faults.find
        (find_row investment_kind t.investment_id t.user_id w.holdings.rows)) [
          | err e ↦ some (err e)
          | ok x ↦ elim (booking t.transaction_type now t.quantity t.unit_price x) [
            | none ↦ none
            | some booked ↦ elim booked [
              | err e ↦ some (err e)
              | ok x' ↦ some (write_record save_fails faults now t x' w)
            ]
          ]
        ]

unfoldable pub transaction_to_response : InvestmentTransaction → RecordTransactionResponse
transaction_to_response t = record {
  id = t.id;
  investment_id = t.investment_id;
  user_id = t.user_id;
  transaction_type = transaction_type_text t.transaction_type;
  quantity = t.quantity;
  unit_price = t.unit_price;
  total_amount = t.total_amount;
  transaction_date = t.transaction_date;
  notes = t.notes;
  created_at = t.created_at;
}

-- The request past the idempotency store. It clears the cached portfolio of the user, which is not a
-- part of the world here, and no cached holding.
unfoldable pub record_past :
    Bool
    → Faults
    → ℕ
    → String
    → RecordTransactionRequest
    → World
    → World × Option (Result Err RecordTransactionResponse)
record_past save_fails faults now id req w = elim (transaction_of now id req) [
  | err e ↦ (w, some (err e))
  | ok t ↦ elim (record_with save_fails faults now t w) [
    | none ↦ (w, none)
    | some done ↦ elim done [
      | err e ↦ (w, some (err e))
      | ok w' ↦ (
        record w' {
          holdings = record (w'.holdings) {
            keys =
                key_store faults req.idempotency_key
                  (transaction_response (transaction_to_response t)) w'.holdings.keys;
          };
        },
        some (ok (transaction_to_response t)),
      )
    ]
  ]
]

-- `RecordTransaction`
unfoldable pub record_transaction :
    Bool
    → Faults
    → ℕ
    → String
    → RecordTransactionRequest
    → World
    → World × Option (Result Err RecordTransactionResponse)
record_transaction save_fails faults now id req w =
    elim (replayed faults req.idempotency_key w.holdings.keys) [
      | some v ↦ (w, some (ok (as_transaction v)))
      | none ↦ record_past save_fails faults now id req w
    ]
