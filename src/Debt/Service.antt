-- ===== src/Debt/Service.antt =====
-- `GetDebt`, `RegisterPayment` and `DeleteDebt` of apps/debt-svc/internal/application/service.go,
-- with the idempotency store and the cache of responses.
pub mod Payments
pub mod Changes
pub mod Reads
pub mod Runs
mod Tests
mod Stores
unfoldable pub use Stores.*
use aureum.Prelude.{
  ℕ, String, Bool, true, false, not, ◌&&◌, Option, none, some, List, [], ◌∷◌, ◌++◌, is_empty,
  if◌then◌else◌, Result, ok, err,
}
use aureum.Prelude.Dict.{lookup, put, remove}
use aureum.Prelude.Int.{ℤ, pos}
use aureum.Debt.Errors.{Err, not_found, database}
use aureum.Debt.Account.{Debt, DebtType, DebtStatus, unlisted, unknown, apply_payment}
use aureum.Debt.Payment.{Payment, new_payment}
use aureum.Debt.Tables.{
  Tables, DebtEvent, payment_registered, debt_deleted, find_debt, update_debt, delete_debt_row,
}

pub record RegisterPaymentRequest : Type 0 where
  pub debt_id : String
  pub user_id : String
  pub amount : ℤ
  pub payment_date : String
  pub notes : String
  pub idempotency_key : String

-- `GetDebt`
unfoldable pub get_debt : Faults → String → String → World → World × Result Err DebtResponse
get_debt faults id user_id w = elim (read faults.cache_get (lookup id w.cache)) [
  | some cached ↦ (w, ok cached)
  | none ↦ elim (found faults.find_debt (find_debt id user_id w.tables.debts)) [
    | err e ↦ (w, err e)
    | ok d ↦ (
      record w { cache = cache_set faults id (debt_to_response d) w.cache },
      ok (debt_to_response d),
    )
  ]
]

-- The payment of a request, with the id that `uuid.New` returns.
unfoldable pub payment_of : ℕ → String → RegisterPaymentRequest → Result Err Payment
payment_of now id req =
    elim (new_payment now record {
      debt_id = req.debt_id;
      user_id = req.user_id;
      amount = req.amount;
      payment_date = req.payment_date;
      notes = req.notes;
    }) [ err e ↦ err e | ok p ↦ ok record p { id = id } ]

pub payment_event : ℕ → RegisterPaymentRequest → Payment → Debt → DebtEvent
payment_event now req payment d = payment_registered record {
  entity_id = req.debt_id;
  user_id = req.user_id;
  payment_id = payment.id;
  amount = req.amount;
  payment_date = req.payment_date;
  remaining_amount = d.remaining_amount;
  debt_status = d.status;
  timestamp = now;
}

-- The writes of the transaction of a payment, and the commit.
unfoldable pub write_payment :
    Faults → ℕ → RegisterPaymentRequest → Payment → Debt → Tables → Result Err Tables
write_payment faults now req payment d t =
    if faults.write_payment
    then err database
    else if faults.write_debt
    then err database
    else if faults.save_event
    then err database
    else if faults.commit
    then err database
    else ok record t {
      debts = update_debt d t.debts;
      payments = t.payments ++ payment ∷ [];
      events = t.events ++ payment_event now req payment d ∷ [];
    }

-- The transaction of a payment with the debt that its read returns. The read goes to the pool of
-- connections and not to the transaction, and takes no lock.
unfoldable pub payment_with :
    Faults → ℕ → RegisterPaymentRequest → Payment → Result Err Debt → Tables → Result Err Tables
payment_with faults now req payment read t = elim read [
  | err e ↦ err e
  | ok d ↦
      let paid = apply_payment now req.amount d in
      elim (paid.1) [ some e ↦ err e | none ↦ write_payment faults now req payment paid.0 t ]
]

unfoldable pub payment_transaction :
    Faults → ℕ → RegisterPaymentRequest → Payment → Tables → Result Err Tables
unfolding payment_with
payment_transaction faults now req payment t =
    payment_with faults now req payment
      (found faults.find_debt (find_debt req.debt_id req.user_id t.debts)) t

-- The payment past the idempotency store.
unfoldable pub pay_debt :
    Faults → ℕ → String → RegisterPaymentRequest → World → World × Result Err Payment
pay_debt faults now id req w = elim (payment_of now id req) [
  | err e ↦ (w, err e)
  | ok payment ↦ elim (payment_transaction faults now req payment w.tables) [
    | err e ↦ (w, err e)
    | ok t ↦ (
      record {
        tables = t;
        keys = key_store faults req.idempotency_key (payment_response payment) w.keys;
        cache = cache_delete faults req.debt_id w.cache;
      },
      ok payment,
    )
  ]
]

-- `RegisterPayment`
unfoldable pub register_payment :
    Faults → ℕ → String → RegisterPaymentRequest → World → World × Result Err Payment
register_payment faults now id req w = elim (replayed faults req.idempotency_key w) [
  | some cached ↦ (w, ok (as_payment cached))
  | none ↦ pay_debt faults now id req w
]

-- `DeleteDebt`: the deletion in the cache comes first, and then the transaction.
unfoldable pub forget_debt : Faults → String → World → World
forget_debt faults id w = record w { cache = cache_delete faults id w.cache }

unfoldable pub delete_transaction : Faults → ℕ → String → String → World → World × Option Err
delete_transaction faults now id user_id w =
    if faults.write_debt
    then (w, some database)
    else if faults.save_event
    then (w, some database)
    else if faults.commit
    then (w, some database)
    else (
      record w {
        tables = record (w.tables) {
          debts = delete_debt_row now id user_id w.tables.debts;
          events =
              w.tables.events
              ++ debt_deleted record { entity_id = id; user_id = user_id; timestamp = now } ∷ [];
        };
      },
      none,
    )

unfoldable pub delete_debt : Faults → ℕ → String → String → World → World × Option Err
delete_debt faults now id user_id w =
    delete_transaction faults now id user_id (forget_debt faults id w)
