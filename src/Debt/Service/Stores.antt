-- ===== src/Debt/Service/Stores.antt =====
-- The state of apps/debt-svc/internal/application/service.go: the rows, the idempotency store
-- (pkg/idempotency) and the cache of responses (pkg/cache), and the calls on them that can fail.
use aureum.Prelude.{
  ℕ, String, Bool, Option, none, some, List, is_empty, if◌then◌else◌, Result, ok, err,
}
use aureum.Prelude.Dict.{lookup, put, remove}
use aureum.Prelude.Int.{ℤ, pos}
use aureum.Debt.Errors.{Err, not_found, database}
use aureum.Debt.Account.{Debt, DebtType, DebtStatus, unlisted, unknown}
use aureum.Debt.Payment.{Payment}
use aureum.Debt.Tables.{Tables}

pub record DebtResponse : Type 0 where
  pub id : String
  pub user_id : String
  pub name : String
  pub description : String
  pub debt_type : DebtType
  pub total_amount : ℤ
  pub remaining_amount : ℤ
  pub interest_rate : ℤ
  pub start_date : String
  pub expected_end_date : String
  pub status : DebtStatus
  pub creditor : String
  pub created_at : ℕ
  pub updated_at : ℕ

-- `debtToResponse`
abbrev pub debt_to_response : Debt → DebtResponse
debt_to_response d = record {
  id = d.id;
  user_id = d.user_id;
  name = d.name;
  description = d.description;
  debt_type = d.debt_type;
  total_amount = d.total_amount;
  remaining_amount = d.remaining_amount;
  interest_rate = d.interest_rate;
  start_date = d.start_date;
  expected_end_date = d.expected_end_date;
  status = d.status;
  creditor = d.creditor;
  created_at = d.created_at;
  updated_at = d.updated_at;
}

-- What the idempotency store keeps: the text of a `DebtResponse` or of a `PaymentResponse`, which has
-- the fields of a payment.
pub data Stored : Type 0 where
  debt_response : DebtResponse → Stored
  payment_response : Payment → Stored

-- `json.Unmarshal` of the text into a `PaymentResponse`, or into a `DebtResponse`: the fields of the
-- same names are read, and the others are left empty.
abbrev pub as_payment : Stored → Payment
as_payment (payment_response p) = p
as_payment (debt_response r) = record {
  id = r.id;
  debt_id = "";
  user_id = r.user_id;
  amount = pos 0;
  payment_date = "";
  notes = "";
  created_at = r.created_at;
}

abbrev pub as_debt : Stored → DebtResponse
as_debt (debt_response r) = r
as_debt (payment_response p) = record {
  id = p.id;
  user_id = p.user_id;
  name = "";
  description = "";
  debt_type = unlisted "";
  total_amount = pos 0;
  remaining_amount = pos 0;
  interest_rate = pos 0;
  start_date = "";
  expected_end_date = "";
  status = unknown "";
  creditor = "";
  created_at = p.created_at;
  updated_at = 0;
}

-- The database, the idempotency store, and the cache with the debts that it keeps under the keys
-- "debt:debt:" ++ id.
pub record World : Type 0 where
  pub tables : Tables
  pub keys : List (String × Stored)
  pub cache : List (String × DebtResponse)

-- Which calls fail. With no cache all of the cache fail; `find_debt` stands for the begin of the
-- transaction as well, where there is one.
pub record Faults : Type 0 where
  pub key_get : Bool
  pub key_store : Bool
  pub cache_get : Bool
  pub cache_set : Bool
  pub cache_delete : Bool
  pub find_debt : Bool
  pub write_payment : Bool
  pub write_debt : Bool
  pub write_schedule : Bool
  pub save_event : Bool
  pub commit : Bool

-- The result of a `FindByID`.
unfoldable pub found {ℓ} : {A : Type ℓ} → Bool → Option A → Result Err A
found fails none = if fails then err database else err not_found
found fails (some a) = if fails then err database else ok a

-- A read that fails is a miss.
unfoldable pub read {ℓ} : {A : Type ℓ} → Bool → Option A → Option A
read fails found = if fails then none else found

-- `cache.Set` and `cache.Delete`, whose errors are dropped.
unfoldable pub cache_set :
    Faults → String → DebtResponse → List (String × DebtResponse) → List (String × DebtResponse)
cache_set faults key value cache = if faults.cache_set then cache else put key value cache

unfoldable pub cache_delete :
    Faults → String → List (String × DebtResponse) → List (String × DebtResponse)
cache_delete faults key cache = if faults.cache_delete then cache else remove key cache

-- `SetNX`: a key that is there keeps its value. An empty key is not stored.
unfoldable pub key_store :
    Faults → String → Stored → List (String × Stored) → List (String × Stored)
key_store faults key value keys =
    if is_empty key
    then keys
    else if faults.key_store
    then keys
    else elim (lookup key keys) [ none ↦ put key value keys | some old ↦ keys ]

-- The text that the idempotency store has for a key.
unfoldable pub replayed : Faults → String → World → Option Stored
replayed faults key w = if is_empty key then none else read faults.key_get (lookup key w.keys)
