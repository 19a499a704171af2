-- ===== src/Debt/Service/Tests.antt =====
-- The requests of the debt service at concrete worlds.
use aureum.Prelude.{
  ℕ, ◌≤◌, ◌<◌, String, ◌≡◌, ◌≢◌, refl, true, false, none, some, List, [], ◌∷◌, arith, ok, err,
  eq_iff,
}
use aureum.Prelude.Dict.{lookup, remove}
use aureum.Prelude.Int.{ℤ, pos, ◌+ℤ◌, ◌-ℤ◌, sub64, wrap64}
use aureum.Debt.Errors.{payment_exceeds_balance}
use aureum.Debt.Account.{Debt, apply_payment, car_loan, unknown, active, new_debt}
use aureum.Debt.Payment.{Payment, new_payment}
use aureum.Debt.Samples.{debt, debt-IsValid}
use aureum.Debt.Tables.{find_debt, update_debt, delete_debt_row}
use aureum.Debt.Tables.Rows.{HasUniqueIds, IsFresh}
use aureum.Debt.Service.{
  World, RegisterPaymentRequest, debt_to_response, register_payment, get_debt, forget_debt,
  delete_transaction, pay_debt, payment_of, payment_transaction, payment_with, write_payment, found,
  replayed, read, key_store, cache_delete, cache_set, delete_debt,
}
use aureum.Debt.Service.Payments
use aureum.Debt.Service.Payments.Ledger
use aureum.Debt.Service.Payments.Keys
use aureum.Debt.Service.Payments.Races as PaymentRaces
use aureum.Debt.Service.Reads
use aureum.Debt.Service.Reads.Coherence
use aureum.Debt.Service.Runs
use aureum.Debt.Service.Changes
use aureum.Debt.Service.Changes.{Setup}
use aureum.Debt.Service.Changes.Balances
use aureum.Debt.Account.Updates.{apply_update}
use aureum.Debt.Amortization.FixedPoint.{fixed}
use aureum.Debt.Service.Reads.Races as ReadRaces

abbrev other_debt : Debt
other_debt = record debt { id = "d2"; user_id = "u2" }

abbrev world : World
world = record {
  tables = record { debts = other_debt ∷ debt ∷ []; payments = []; schedules = []; events = [] };
  keys = [];
  cache = [];
}

abbrev request : ℤ → RegisterPaymentRequest
request amount = record {
  debt_id = "d1";
  user_id = "u1";
  amount = amount;
  payment_date = "2026-01-02";
  notes = "";
  idempotency_key = "k1";
}

ids_differ : ◌≢◌ {A = String} "d1" "d2"
ids_differ e = ground (arith, eq_iff "d1" "d2", e)

world-HasUniqueIds : HasUniqueIds world.tables.debts
world-HasUniqueIds = ((ids_differ, tt), (tt, tt))

debt_found : find_debt "d1" "u1" world.tables.debts ≡ some debt
unfolding find_debt
debt_found = refl

world-Ledger : Ledger.Ledger "d1" "u1" (pos 600) world.tables
unfolding Payments.recorded ◌+ℤ◌
world-Ledger = record { d = debt; found_debt = debt_found; valid = debt-IsValid; balance = refl }

-- A payment, the same one again, one that is too large and one whose commit fails.
abbrev calls : List Ledger.Call
calls =
    (ReadRaces.no_faults, 2, "p1", request (pos 100))
    ∷ (ReadRaces.no_faults, 3, "p2", request (pos 100))
    ∷ (ReadRaces.no_faults, 4, "p3", record (request (pos 501)) { idempotency_key = "" })
    ∷ (
      record (ReadRaces.no_faults) { commit = true },
      5,
      "p4",
      record (request (pos 50)) { idempotency_key = "" },
    )
    ∷ []

register_payments_balance_example :
    Ledger.Ledger "d1" "u1" (pos 600) (Ledger.register_payments calls world).tables
register_payments_balance_example =
    Ledger.register_payments_balance calls "d1" "u1" (pos 600) world (ground arith)
      world-HasUniqueIds world-Ledger

-- Of the four calls one is recorded.
register_payments-calls :
    let t = (Ledger.register_payments calls world).tables in
    Payments.recorded "d1" t.payments ≡ pos 100
unfolding Ledger.register_payments register_payment Payments.recorded ◌+ℤ◌ pay_debt payment_of
    new_payment payment_transaction payment_with write_payment found find_debt update_debt
    apply_payment sub64 wrap64 ◌-ℤ◌ replayed read lookup key_store cache_delete remove
register_payments-calls = refl

abbrev payment : Payment
payment = record {
  id = "p1";
  debt_id = "d1";
  user_id = "u1";
  amount = pos 100;
  payment_date = "2026-01-02";
  notes = "";
  created_at = 2;
}

payment_accepted :
    (register_payment ReadRaces.no_faults 2 "p1" (request (pos 100)) world).1 ≡ ok payment
unfolding register_payment pay_debt payment_of new_payment payment_transaction payment_with
    write_payment found find_debt apply_payment sub64 wrap64 ◌-ℤ◌ replayed read lookup
payment_accepted = refl

-- The same key with another amount.
register_payment_once_example :
    let w' = (register_payment ReadRaces.no_faults 2 "p1" (request (pos 100)) world).0 in
    register_payment ReadRaces.no_faults 9 "p9" (request (pos 300)) w' ≡ (w', ok payment)
register_payment_once_example =
    Keys.register_payment_once ReadRaces.no_faults ReadRaces.no_faults 2 9 "p1" "p9"
      (request (pos 100)) (request (pos 300)) world refl refl refl refl refl payment_accepted

payment_refused :
    (register_payment ReadRaces.no_faults 2 "p1" (request (pos 601)) world).1
    ≡ err payment_exceeds_balance
unfolding register_payment pay_debt payment_of new_payment payment_transaction payment_with
    write_payment found find_debt apply_payment sub64 wrap64 ◌-ℤ◌ replayed read lookup
payment_refused = refl

applied :
    (now : ℕ) (amount : ℕ)
    → 0 < amount
    → amount ≤ 600
    → (apply_payment now (pos amount) debt).1 ≡ none
unfolding apply_payment
applied now amount p h = ground (arith, p, h)

register_payment_races_example :
    let read = found false (find_debt "d1" "u1" world.tables.debts) in
    let t1 =
      PaymentRaces.paid_tables 2
        (request (pos 500))
        (record payment { amount = pos 500 })
        debt
        world.tables in
    let t2 =
      PaymentRaces.paid_tables 3
        (request (pos 400))
        (record payment { amount = pos 400 })
        debt
        t1 in
    let d2 = (apply_payment 3 (pos 400) debt).0 in
    (payment_with ReadRaces.no_faults 2
        (request (pos 500))
        (record payment { amount = pos 500 })
        read
        world.tables
      ≡ ok t1)
    × (payment_with ReadRaces.no_faults 3
          (request (pos 400))
          (record payment { amount = pos 400 })
          read
          t1
        ≡ ok t2)
    × (find_debt "d1" "u1" t2.debts ≡ some d2)
    × (d2.remaining_amount +ℤ pos 400 ≡ pos 600)
    × (Payments.recorded "d1" t2.payments ≡ Payments.recorded "d1" [] +ℤ pos 500 +ℤ pos 400)
register_payment_races_example =
    PaymentRaces.register_payment_races 2 3 (request (pos 500)) (request (pos 400))
      (record payment { amount = pos 500 }) (record payment { amount = pos 400 }) debt world.tables
      refl refl refl refl refl refl (ground arith) debt-IsValid debt_found
      (applied 2 500 (omega arith) (omega arith)) (applied 3 400 (omega arith) (omega arith))

abbrev setup : Setup
setup = record { floats = fixed; parse = λ s. none; has_schedules = true }

abbrev create_request : Changes.CreateDebtRequest
create_request = record {
  input = record {
    user_id = "u3";
    name = "Car";
    description = "";
    debt_type = car_loan;
    total_amount = pos 900;
    interest_rate = pos 0;
    start_date = "2026-01-01";
    expected_end_date = "";
    status = unknown "";
    creditor = "";
  };
  idempotency_key = "k9";
}

abbrev update_request : Changes.UpdateDebtRequest
update_request = record {
  input = record {
    id = "d1";
    user_id = "u1";
    name = some "Home";
    description = none;
    debt_type = none;
    total_amount = none;
    interest_rate = some (pos 0);
    expected_end_date = none;
    status = none;
    creditor = none;
  };
  idempotency_key = "";
}

-- A new debt, a read by the owner, an update, a payment and a deletion of the other debt.
abbrev requests : List Runs.Request
requests =
    Runs.create ReadRaces.no_faults 1 "d9" create_request
    ∷ Runs.read_debt ReadRaces.no_faults "d1" "u1"
    ∷ Runs.update ReadRaces.no_faults 2 update_request
    ∷ Runs.pay ReadRaces.no_faults 2 "p1" (request (pos 100))
    ∷ Runs.read_debt ReadRaces.no_faults "d1" "u1"
    ∷ Runs.delete ReadRaces.no_faults 3 "d2" "u2"
    ∷ []

world-InStep : Coherence.InStep world
unfolding lookup
world-InStep = (world-HasUniqueIds, λ id r h. absurd (cc h))

new_id-IsFresh : IsFresh "d9" world.tables.debts
new_id-IsFresh =
    (λ e. ground (arith, eq_iff "d2" "d9", e), ((λ e. ground (arith, eq_iff "d1" "d9", e)), tt))

abbrev paid_debt : Debt
paid_debt = record debt {
  name = "Home";
  interest_rate = pos 0;
  remaining_amount = pos 500;
  updated_at = 2;
}

debt_served :
    find_debt "d1" "u1" (Runs.serve_all setup requests world).tables.debts ≡ some paid_debt
unfolding Runs.serve_all Runs.serve delete_debt delete_transaction forget_debt get_debt cache_set
    update_debt delete_debt_row remove key_store cache_delete register_payment pay_debt payment_of
    new_payment payment_transaction payment_with write_payment found find_debt apply_payment sub64
    wrap64 ◌-ℤ◌ replayed read lookup Changes.create_debt Changes.open_debt Changes.debt_of
    Changes.to_domain_debt_type Changes.to_domain_debt_status new_debt Changes.create_transaction
    Changes.save_amortization Changes.finish Changes.update_debt_request Changes.change_debt
    Changes.changed Changes.input_of Changes.convert apply_update Changes.update_transaction
    Changes.renew_amortization
debt_served = refl

serve_all_refines_example :
    (get_debt ReadRaces.no_faults "d1" "u1" (Runs.serve_all setup requests world)).1
    ≡ Reads.read_row "d1" "u1" (Runs.serve_all setup requests world)
serve_all_refines_example =
    Runs.serve_all_refines setup requests ReadRaces.no_faults "d1" "u1" world
      (new_id-IsFresh, (tt, (refl, (refl, (tt, (refl, tt)))))) world-InStep refl debt_served

not_replayed : replayed ReadRaces.no_faults "k9" world ≡ none
unfolding replayed read lookup
not_replayed = refl

nothing_paid : Payments.recorded "d9" world.tables.payments ≡ pos 0
unfolding Payments.recorded
nothing_paid = refl

abbrev new_car : Debt
new_car = record {
  id = "d9";
  user_id = "u3";
  name = "Car";
  description = "";
  debt_type = car_loan;
  total_amount = pos 900;
  remaining_amount = pos 900;
  interest_rate = pos 0;
  start_date = "2026-01-01";
  expected_end_date = "";
  status = active;
  creditor = "";
  created_at = 1;
  updated_at = 1;
  deleted_at = none;
}

car_created :
    (Changes.create_debt setup ReadRaces.no_faults 1 "d9" create_request world).1
    ≡ ok (debt_to_response new_car)
unfolding Changes.create_debt Changes.open_debt Changes.debt_of Changes.to_domain_debt_type
    Changes.to_domain_debt_status new_debt Changes.create_transaction Changes.save_amortization
    Changes.finish replayed read lookup
car_created = refl

-- The payments on the new debt, one of which is too large.
abbrev car_payments : List Ledger.Call
car_payments =
    (
      ReadRaces.no_faults,
      2,
      "p1",
      record (request (pos 400)) { debt_id = "d9"; user_id = "u3"; idempotency_key = "" },
    )
    ∷ (
      ReadRaces.no_faults,
      3,
      "p2",
      record (request (pos 600)) { debt_id = "d9"; user_id = "u3"; idempotency_key = "" },
    )
    ∷ []

create_debt_balance_example :
    let w' = (Changes.create_debt setup ReadRaces.no_faults 1 "d9" create_request world).0 in
    Ledger.Ledger "d9" "u3" (pos 900) (Ledger.register_payments car_payments w').tables
create_debt_balance_example =
    Balances.create_debt_balance setup ReadRaces.no_faults 1 "d9" create_request car_payments world
      not_replayed (ground arith) world-HasUniqueIds new_id-IsFresh nothing_paid (ground arith)
      car_created

delete_debt_races_example :
    let between =
      (get_debt ReadRaces.no_faults "d1" "u1" (forget_debt ReadRaces.no_faults "d1" world)).0 in
    let (w', e) = delete_transaction ReadRaces.no_faults 5 "d1" "u1" between in
    (e ≡ none)
    × (find_debt "d1" "u2" w'.tables.debts ≡ none)
    × ((get_debt ReadRaces.no_faults "d1" "u2" w').1 ≡ ok (debt_to_response debt))
delete_debt_races_example =
    ReadRaces.delete_debt_races 5 "d1" "u1" "u2" world world-HasUniqueIds debt_found
