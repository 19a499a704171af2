-- ===== src/Debt/Service/Changes.antt =====
-- `CreateDebt` and `UpdateDebt` of apps/debt-svc/internal/application/service.go, with the schedules of
-- internal/infrastructure/persistence/amortization_repo.go.
pub mod Balances
pub mod Writes
use aureum.Prelude.{
  ℕ, String, Bool, true, false, not, ◌&&◌, ◌||◌, Option, none, some, List, [], ◌∷◌, ◌++◌, is_empty,
  if◌then◌else◌, Result, ok, err,
}
use aureum.Prelude.Dict.{lookup, put, remove}
use aureum.Prelude.Int.{ℤ, pos, leb_ℤ}
use aureum.Debt.Errors.{Err, invalid_debt_type, invalid_status, database}
use aureum.Debt.Account.{
  Debt, DebtType, DebtStatus, CreateDebtInput, UpdateDebtInput, unlisted, unknown, active, new_debt,
}
use aureum.Debt.Account.Updates.{apply_update}
use aureum.Debt.Amortization.{
  Floats, AmortizationSchedule, calculate_amortization, compute_monthly_payment, months_between,
}
use aureum.Debt.Tables.{Tables, DebtEvent, debt_created, debt_updated, find_debt, update_debt}
use aureum.Debt.Service.{
  World, Faults, DebtResponse, debt_response, as_debt, debt_to_response, found, read, cache_delete,
  key_store, replayed,
}

-- A request with its idempotency key. The types and statuses of a request are texts; here they are
-- read by the same names as those of the domain.
pub record CreateDebtRequest : Type 0 where
  pub input : CreateDebtInput
  pub idempotency_key : String

pub record UpdateDebtRequest : Type 0 where
  pub input : UpdateDebtInput
  pub idempotency_key : String

-- `toDomainDebtType`
unfoldable pub to_domain_debt_type : DebtType → Result Err DebtType
to_domain_debt_type (unlisted s) = err invalid_debt_type
to_domain_debt_type t = ok t

-- `toDomainDebtStatus`
unfoldable pub to_domain_debt_status : DebtStatus → Result Err DebtStatus
to_domain_debt_status (unknown s) = if is_empty s then ok (unknown "") else err invalid_status
to_domain_debt_status s = ok s

-- `if status == "" { status = domain.DebtStatusActive }`
abbrev pub or_active : DebtStatus → DebtStatus
or_active (unknown s) = if is_empty s then active else unknown s
or_active s = s

-- The conversions of the fields that are given.
unfoldable pub convert {ℓ} : {A : Type ℓ} → (A → Result Err A) → Option A → Result Err (Option A)
convert f none = ok none
convert f (some a) = elim (f a) [ err e ↦ err e | ok b ↦ ok (some b) ]

unfoldable pub input_of : UpdateDebtInput → Result Err UpdateDebtInput
input_of input = elim (convert to_domain_debt_type input.debt_type) [
  | err e ↦ err e
  | ok type ↦ elim (convert to_domain_debt_status input.status) [
    | err e ↦ err e
    | ok status ↦ ok record input { debt_type = type; status = status }
  ]
]

-- The debt that an update writes.
unfoldable pub changed : ℕ → UpdateDebtInput → Debt → Result Err Debt
changed now input d = elim (input_of input) [
  | err e ↦ err e
  | ok input' ↦ let r = apply_update now input' d in elim (r.1) [ some e ↦ err e | none ↦ ok r.0 ]
]

-- The debt of a request, with the id that `uuid.New` returns.
unfoldable pub debt_of : ℕ → String → CreateDebtInput → Result Err Debt
debt_of now id input = elim (to_domain_debt_type input.debt_type) [
  | err e ↦ err e
  | ok type ↦ elim (to_domain_debt_status input.status) [
    | err e ↦ err e
    | ok status ↦ elim (new_debt now record input { debt_type = type; status = or_active status }) [
      | err e ↦ err e
      | ok d ↦ ok record d { id = id }
    ]
  ]
]

-- The event and the commit.
unfoldable pub finish : Faults → DebtEvent → Result Err Tables → Result Err Tables
finish faults event (err e) = err e
finish faults event (ok t) =
    if faults.save_event
    then err database
    else if faults.commit
    then err database
    else ok record t { events = t.events ++ event ∷ [] }

-- What the service has besides its stores: the arithmetic, `time.Parse`, and whether it was given a
-- repository of schedules.
pub record Setup : Type 1 where
  pub floats : Floats
  pub parse : String → Option (ℕ × ℕ)
  pub has_schedules : Bool

module _ (u : Setup) where
  -- `saveAmortization`
  unfoldable pub schedule_of : Debt → ℕ → AmortizationSchedule
  schedule_of d months =
      record (calculate_amortization u.floats d.total_amount d.interest_rate
        (compute_monthly_payment u.floats d.total_amount d.interest_rate months) months) {
          debt_id = d.id;
        }

  unfoldable pub write_schedule : Faults → Debt → ℕ → Tables → Result Err Tables
  write_schedule faults d months t =
      if leb_ℤ (compute_monthly_payment u.floats d.total_amount d.interest_rate months) (pos 0)
      then ok t
      else if faults.write_schedule
      then err database
      else ok record t { schedules = put d.id (schedule_of d months) t.schedules }

  abbrev pub has_no_schedule : Debt → Bool
  has_no_schedule d =
      leb_ℤ d.interest_rate (pos 0) || is_empty d.expected_end_date || is_empty d.start_date

  unfoldable pub save_amortization : Faults → Debt → Tables → Result Err Tables
  save_amortization faults d t =
      if not u.has_schedules
      then ok t
      else if has_no_schedule d
      then ok t
      else elim (months_between u.parse d.start_date d.expected_end_date) [
        | err e ↦ err e
        | ok months ↦ write_schedule faults d months t
      ]

  unfoldable pub create_transaction : Faults → ℕ → Debt → Tables → Result Err Tables
  create_transaction faults now d t =
      if faults.write_debt
      then err database
      else finish faults (debt_created record { debt = d; timestamp = now })
          (save_amortization faults d record t { debts = t.debts ++ d ∷ [] })

  -- `CreateDebt` past the idempotency store.
  unfoldable pub open_debt :
      Faults → ℕ → String → CreateDebtRequest → World → World × Result Err DebtResponse
  open_debt faults now id req w = elim (debt_of now id req.input) [
    | err e ↦ (w, err e)
    | ok d ↦ elim (create_transaction faults now d w.tables) [
      | err e ↦ (w, err e)
      | ok t ↦ (
        record w {
          tables = t;
          keys = key_store faults req.idempotency_key (debt_response (debt_to_response d)) w.keys;
        },
        ok (debt_to_response d),
      )
    ]
  ]

  -- `CreateDebt`
  unfoldable pub create_debt :
      Faults → ℕ → String → CreateDebtRequest → World → World × Result Err DebtResponse
  create_debt faults now id req w = elim (replayed faults req.idempotency_key w) [
    | some cached ↦ (w, ok (as_debt cached))
    | none ↦ open_debt faults now id req w
  ]

  -- The schedule of an update: it is written anew, or deleted, whose error is dropped.
  unfoldable pub renew_amortization : Faults → Debt → Tables → Result Err Tables
  renew_amortization faults d t =
      if not u.has_schedules
      then ok t
      else if has_no_schedule d
      then (if faults.write_schedule
          then ok t
          else ok record t { schedules = remove d.id t.schedules })
      else save_amortization faults d t

  unfoldable pub update_transaction : Faults → ℕ → Debt → Tables → Result Err Tables
  update_transaction faults now d t =
      if faults.write_debt
      then err database
      else finish faults
          (debt_updated
            record { entity_id = d.id; user_id = d.user_id; status = d.status; timestamp = now })
          (renew_amortization faults d record t { debts = update_debt d t.debts })

  -- `UpdateDebt` past the idempotency store.
  unfoldable pub change_debt :
      Faults → ℕ → UpdateDebtRequest → World → World × Result Err DebtResponse
  change_debt faults now req w =
      elim (found faults.find_debt (find_debt req.input.id req.input.user_id w.tables.debts)) [
        | err e ↦ (w, err e)
        | ok d ↦ elim (changed now req.input d) [
          | err e ↦ (w, err e)
          | ok d' ↦ elim (update_transaction faults now d' w.tables) [
            | err e ↦ (w, err e)
            | ok t ↦ (
              record {
                tables = t;
                keys =
                    key_store faults req.idempotency_key (debt_response (debt_to_response d'))
                      w.keys;
                cache = cache_delete faults req.input.id w.cache;
              },
              ok (debt_to_response d'),
            )
          ]
        ]
      ]

  -- `UpdateDebt`
  unfoldable pub update_debt_request :
      Faults → ℕ → UpdateDebtRequest → World → World × Result Err DebtResponse
  update_debt_request faults now req w = elim (replayed faults req.idempotency_key w) [
    | some cached ↦ (w, ok (as_debt cached))
    | none ↦ change_debt faults now req w
  ]
