-- ===== src/Transaction/Service/Tests.antt =====
-- The requests of the transaction service at concrete states.
use aureum.Prelude.{◌≡◌, ◌↔◌, refl, true, false, none, some, List, [], ◌∷◌, ok, err}
use aureum.Prelude.Dict.{lookup}
use aureum.Prelude.Int.{pos}
use aureum.Transaction.Errors.{invalid_status}
use aureum.Transaction.Types.{
  pending, salary, cash, essential, valid_status, valid_income_type, valid_method,
  valid_expense_type,
}
use aureum.Transaction.Income.{new_income}
use aureum.Transaction.FixedExpense.{new_fixed_expense}
use aureum.Transaction.FixedExpense.Updates.{IsValid}
use aureum.Transaction.Service.{
  TransactionEvent, fixed_expense_created, same_event, fixed_expense_response,
}
use aureum.Endpoint.Stores.{Faults, replayed, read, key_store, found, cache_set}
use aureum.Transaction.Service.Texts.{
  to_domain_status, to_domain_income_type, to_domain_payment_method, to_domain_expense_type,
  status_text, income_type_text, payment_method_text, expense_type_text, cache_key,
}
use aureum.Endpoint.Keys.{has_no_colon}
use aureum.Transaction.Service.Texts.Round.{to_domain_iff}
use aureum.Endpoint.{State, find_row, create, insert, write, get}
use aureum.Endpoint.Outbox.{alive_after}
use aureum.Endpoint.Runs.{
  Request, creates, gets, updates, elsewhere, serve, serve_all, AllOrderly, IsWell, read_row,
}
use aureum.Transaction.Service.Incomes.{
  CreateIncomeRequest, UpdateIncomeRequest, income_kind, income_of, create_income, get_income,
}
use aureum.Transaction.Service.Incomes.Laws.{IsProper, IsColonFree}
use aureum.Transaction.Service.FixedExpenses.{
  CreateFixedExpenseRequest, fixed_expense_kind, fixed_expense_of, get_fixed_expense,
}
use aureum.Transaction.Service.Reads.{get_income-serve_all, create_once}

abbrev no_faults : Faults
no_faults = record {
  key_get = false;
  key_store = false;
  cache_get = false;
  cache_set = false;
  cache_delete = false;
  find = false;
  begin = false;
  write = false;
  save_event = false;
  commit = false;
}

abbrev no_incomes : State income_kind
no_incomes = record { rows = []; cache = []; keys = []; events = [] }

no_incomes-IsWell : IsWell income_kind IsProper no_incomes
unfolding lookup find_row alive_after
no_incomes-IsWell = record {
  cached = record { all = tt; unique = tt; coherent = λ key r h. cc h };
  recorded = λ id u. refl;
}

abbrev no_fixed_expenses : State fixed_expense_kind
no_fixed_expenses = record { rows = []; cache = []; keys = []; events = [] }

no_fixed_expenses-IsWell : IsWell fixed_expense_kind IsValid no_fixed_expenses
unfolding lookup find_row alive_after
no_fixed_expenses-IsWell = record {
  cached = record { all = tt; unique = tt; coherent = λ key r h. cc h };
  recorded = λ id u. refl;
}

abbrev pay : CreateIncomeRequest
pay = record {
  user_id = "u1";
  description = "Pay";
  source = "Employer";
  income_type = "salary";
  received_date = "2026-01-31";
  received_amount = pos 5000;
  status = "pending";
  idempotency_key = "k1";
}

abbrev bonus : UpdateIncomeRequest
bonus = record {
  id = "t1";
  user_id = "u1";
  description = none;
  source = none;
  income_type = none;
  received_date = none;
  received_amount = some (pos 6000);
  status = some "completed";
  idempotency_key = "";
}

abbrev rent : CreateFixedExpenseRequest
rent = record {
  user_id = "u1";
  description = "Rent";
  category = "home";
  day_of_month = pos 5;
  payment_method = "pix";
  status = "pending";
  idempotency_key = "k1";
}

abbrev event_elsewhere : TransactionEvent
event_elsewhere = record {
  event_type = fixed_expense_created;
  entity_id = "t1";
  user_id = "u1";
  payload = [];
  timestamp = 1;
}

abbrev income_requests : List (Request income_kind)
income_requests =
    creates no_faults 1 "t1" pay
    ∷ gets no_faults "t1" "u1"
    ∷ elsewhere [] (event_elsewhere ∷ [])
    ∷ updates no_faults 2 bonus
    ∷ gets no_faults "t1" "u1"
    ∷ []

income_requests-AllOrderly : AllOrderly income_kind IsColonFree income_requests no_incomes
unfolding has_no_colon same_event
income_requests-AllOrderly = ((refl, tt), (tt, ((refl, refl, tt), (refl, (tt, tt)))))

abbrev fixed_expense_requests : List (Request fixed_expense_kind)
fixed_expense_requests = creates no_faults 1 "t1" rent ∷ gets no_faults "t1" "u1" ∷ []

get_income-serve_all_example :
    (get_income no_faults "t1" "u2" (serve_all income_kind income_requests no_incomes)).1
    ≡ read_row income_kind "t1" "u2" (serve_all income_kind income_requests no_incomes)
unfolding has_no_colon
get_income-serve_all_example =
    get_income-serve_all income_requests no_faults "t1" "u2" no_incomes income_requests-AllOrderly
      no_incomes-IsWell refl refl

create_once_example :
    let s' = (create income_kind no_faults 1 "t1" pay no_incomes).0 in
    create income_kind no_faults 2 "t2" pay s'
    ≡ (s', (create income_kind no_faults 1 "t1" pay no_incomes).1)
unfolding create insert write replayed read key_store income_of new_income to_domain_income_type
    to_domain_status lookup valid_status valid_income_type
create_once_example =
    create_once income_kind (λ r. refl) no_faults no_faults 1 2 "t1" "t2" pay pay no_incomes refl
      refl refl refl refl refl

to_domain_iff_example :
    ((to_domain_status "cash" ≡ ok pending)
      ↔ ((valid_status pending ≡ true) × ("cash" ≡ status_text pending)))
    × ((to_domain_income_type "cash" ≡ ok salary)
        ↔ ((valid_income_type salary ≡ true) × ("cash" ≡ income_type_text salary)))
    × ((to_domain_payment_method "cash" ≡ ok cash)
        ↔ ((valid_method cash ≡ true) × ("cash" ≡ payment_method_text cash)))
    × ((to_domain_expense_type "cash" ≡ ok essential)
        ↔ ((valid_expense_type essential ≡ true) × ("cash" ≡ expense_type_text essential)))
to_domain_iff_example = to_domain_iff "cash" pending salary cash essential

-- A status that is left out is refused.
no_status : income_of 1 "t1" (record pay { status = "" }) ≡ err invalid_status
unfolding income_of to_domain_income_type to_domain_status
no_status = refl

-- Another user reads a fixed expense from the cache.
fixed_expense_leaks :
    let s = serve_all fixed_expense_kind fixed_expense_requests no_fixed_expenses in
    let leaked = get_fixed_expense no_faults "t1" "u2" s in
    (find_row fixed_expense_kind "t1" "u2" s.rows ≡ none)
    × (leaked.1 ≡ (get_fixed_expense no_faults "t1" "u1" s).1)
unfolding serve_all serve create insert write get replayed read found cache_set key_store find_row
    fixed_expense_of new_fixed_expense to_domain_payment_method to_domain_status lookup valid_status
    valid_method get_fixed_expense cache_key
fixed_expense_leaks = (refl, refl)

-- The key of a fixed expense answers a request for an income.
key_crosses :
    (create_income no_faults 2 "t2" pay record no_incomes {
      keys =
          (
            "k1",
            fixed_expense_response record {
              id = "t9";
              user_id = "u9";
              description = "Rent";
              category = "home";
              day_of_month = pos 5;
              payment_method = "pix";
              status = "pending";
              created_at = 1;
              updated_at = 1;
            },
          )
          ∷ [];
    }).1
    ≡ ok (record {
      id = "t9";
      user_id = "u9";
      description = "Rent";
      source = "";
      income_type = "";
      received_date = "";
      received_amount = pos 0;
      status = "pending";
      created_at = 1;
      updated_at = 1;
    })
unfolding create_income create replayed read lookup
key_crosses = refl
