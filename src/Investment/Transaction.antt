-- ===== src/Investment/Transaction.antt =====
-- apps/investment-svc/internal/domain/transaction.go: one transaction on a holding.
use aureum.Prelude.{ℕ, String, Bool, true, false, not, List, [], ◌∷◌, is_empty, Result, ok, guards}
use aureum.Prelude.Int.{ℤ, pos, leb_ℤ, ltb_ℤ, mul64}
use aureum.Investment.Errors.{
  Err, missing_field, invalid_transaction_type, invalid_quantity, invalid_price,
}

-- `TransactionType`, a string type: `unlisted` is any text that no constant names.
pub data TransactionType : Type 0 where
  buy sell dividend jcp amortization : TransactionType
  unlisted : String → TransactionType

-- `TransactionType.Valid`
unfoldable pub valid_type : TransactionType → Bool
valid_type (unlisted s) = false
valid_type t = true

-- `transactionType == ""`
abbrev type_is_empty : TransactionType → Bool
type_is_empty (unlisted s) = is_empty s
type_is_empty t = false

pub record InvestmentTransaction : Type 0 where
  pub id : String
  pub investment_id : String
  pub user_id : String
  pub transaction_type : TransactionType
  pub quantity : ℤ  -- int64
  pub unit_price : ℤ  -- int64
  pub total_amount : ℤ  -- int64
  pub transaction_date : String
  pub notes : String
  pub created_at : ℕ

pub record RecordTransactionInput : Type 0 where
  pub user_id : String
  pub investment_id : String
  pub transaction_type : TransactionType
  pub quantity : ℤ
  pub unit_price : ℤ
  pub transaction_date : String
  pub notes : String

-- The guards of `NewTransaction`, each with the error that it returns.
transaction_guards : RecordTransactionInput → List (Bool × Err)
unfolding valid_type
transaction_guards input =
    (is_empty input.user_id, missing_field)
    ∷ (is_empty input.investment_id, missing_field)
    ∷ (type_is_empty input.transaction_type, missing_field)
    ∷ (not (valid_type input.transaction_type), invalid_transaction_type)
    ∷ (leb_ℤ input.quantity (pos 0), invalid_quantity)
    ∷ (ltb_ℤ input.unit_price (pos 0), invalid_price)
    ∷ (is_empty input.transaction_date, missing_field)
    ∷ []

-- The transaction that it returns past them. The id is set by the caller, and is empty until then.
fresh_transaction : ℕ → RecordTransactionInput → InvestmentTransaction
fresh_transaction now input = record {
  id = "";
  investment_id = input.investment_id;
  user_id = input.user_id;
  transaction_type = input.transaction_type;
  quantity = input.quantity;
  unit_price = input.unit_price;
  total_amount = mul64 input.quantity input.unit_price;
  transaction_date = input.transaction_date;
  notes = input.notes;
  created_at = now;
}

-- `NewTransaction`
unfoldable pub new_transaction : ℕ → RecordTransactionInput → Result Err InvestmentTransaction
unfolding transaction_guards fresh_transaction
new_transaction now input = guards (transaction_guards input) (ok (fresh_transaction now input))
