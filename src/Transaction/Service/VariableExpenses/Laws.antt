-- ===== src/Transaction/Service/VariableExpenses/Laws.antt =====
-- The laws of the table `variable_expenses` and of its requests.
use aureum.Prelude.{ℕ, String, ◌≡◌, refl, inl, inr, arith, ok, Result-cases, Option-cases}
use aureum.Transaction.VariableExpense.{
  VariableExpense, CreateVariableExpenseInput, UpdateVariableExpenseInput, new_variable_expense,
  apply_update,
}
use aureum.Transaction.VariableExpense.Updates.{
  IsValid, apply_update-Keeps, new_variable_expense-IsValid, new_variable_expense-live,
}
use aureum.Transaction.Service.Stores.{same_event}
use aureum.Transaction.Service.Texts.{
  to_domain_expense_type, to_domain_payment_method, to_domain_status, or_pending,
}
use aureum.Transaction.Service.VariableExpenses.{
  variable_expense_kind, variable_expense_of, variable_expense_input, change_variable_expense,
  CreateVariableExpenseRequest, UpdateVariableExpenseRequest,
}
use aureum.Endpoint.Rows.{IsTable}
use aureum.Endpoint.Steps.{IsSound}
use aureum.Endpoint.Outbox.{IsNamed}

pub variable_expense-IsTable : IsTable variable_expense_kind
variable_expense-IsTable = record {
  id_set = λ d r. refl;
  owner_set = λ d r. refl;
  live_set = λ d r. refl;
  id_mark = λ now r. refl;
  owner_mark = λ now r. refl;
  dead_mark = λ now r. refl;
}

pub variable_expense-IsNamed : IsNamed variable_expense_kind
unfolding same_event
variable_expense-IsNamed = record {
  created_created = refl;
  created_updated = refl;
  created_deleted = refl;
  deleted_deleted = refl;
  deleted_updated = refl;
}

-- What is built is what `NewVariableExpense` returns, with the id.
variable_expense_of-new :
    (now : ℕ) (id : String) (req : CreateVariableExpenseRequest) (d : VariableExpense)
    → variable_expense_of now id req ≡ ok d
    → (input : CreateVariableExpenseInput) × (x : VariableExpense) × (new_variable_expense now input
        ≡ ok x)
      × (input.user_id ≡ req.user_id)
      × (d ≡ record x { id = id })
unfolding variable_expense_of
variable_expense_of-new now id req d h =
    elim (Result-cases (to_domain_expense_type req.expense_type)) [
      | inr (e, h0) ↦ ground arith
      | inl (expense_type, h0) ↦ elim (Result-cases (to_domain_payment_method req.payment_method)) [
        | inr (e, h1) ↦ ground arith
        | inl (payment_method, h1) ↦ elim (Result-cases (to_domain_status req.status)) [
          | inr (e, h2) ↦ ground arith
          | inl (status, h2) ↦
              let input : CreateVariableExpenseInput = record {
                user_id = req.user_id;
                description = req.description;
                destination = req.destination;
                category = req.category;
                expense_type = expense_type;
                payment_method = payment_method;
                payment_date = req.payment_date;
                paid_amount = req.paid_amount;
                status = or_pending status;
              } in
              elim (Result-cases (new_variable_expense now input)) [
                | inr (e, n) ↦ ground arith
                | inl (x, n) ↦ (input, x, n, refl, ground arith)
              ]
        ]
      ]
    ]

-- What is changed is what `ApplyUpdate` leaves, when it returns no error.
change_variable_expense-applied :
    (now : ℕ) (req : UpdateVariableExpenseRequest) (x d : VariableExpense)
    → change_variable_expense now req x ≡ ok d
    → (input : UpdateVariableExpenseInput) × (d ≡ (apply_update now input x).0)
unfolding change_variable_expense
change_variable_expense-applied now req x d h = elim (Result-cases (variable_expense_input req)) [
  | inr (e, i) ↦ ground arith
  | inl (input, i) ↦ elim (Option-cases ((apply_update now input x).1)) [
    | inl n ↦ (input, ground arith)
    | inr (e, n) ↦ ground arith
  ]
]

-- The checks read these columns.
IsValid-columns :
    (x y : VariableExpense)
    → y.description ≡ x.description
    → y.destination ≡ x.destination
    → y.category ≡ x.category
    → y.expense_type ≡ x.expense_type
    → y.payment_method ≡ x.payment_method
    → y.payment_date ≡ x.payment_date
    → y.paid_amount ≡ x.paid_amount
    → y.status ≡ x.status
    → IsValid x
    → IsValid y
IsValid-columns x y e0 e1 e2 e3 e4 e5 e6 e7 v = record {
  description_ok = rw e0 v.description_ok;
  destination_ok = rw e1 v.destination_ok;
  category_ok = rw e2 v.category_ok;
  expense_type_ok = rw e3 v.expense_type_ok;
  payment_method_ok = rw e4 v.payment_method_ok;
  payment_date_ok = rw e5 v.payment_date_ok;
  paid_amount_ok = rw e6 v.paid_amount_ok;
  status_ok = rw e7 v.status_ok;
}

pub variable_expense-IsSound : IsSound variable_expense_kind IsValid (λ req. Unit)
variable_expense-IsSound = record {
  built = λ now id req d q h.
      let (input, x, n, user, same) = variable_expense_of-new now id req d h in
      let (v, _, _) = new_variable_expense-IsValid now input n in
      let live = new_variable_expense-live now input n in
      (
        rw same
            (IsValid-columns x (record x { id = id }) refl refl refl refl refl refl refl refl v),
        rw same refl,
        rw (same, live) refl,
      );
  changed = λ now req x d v h.
      let (input, same) = change_variable_expense-applied now req x d h in
      let (v', id, _, _) =
        apply_update-Keeps x.id x.user_id x.status now input x (v, refl, refl, inr refl) in
      (rw same v', rw same id);
  set = λ d r p q.
      IsValid-columns d (variable_expense_kind.set_columns d r) refl refl refl refl refl refl refl
        refl p;
  marked = λ now r p.
      IsValid-columns r (variable_expense_kind.mark now r) refl refl refl refl refl refl refl refl
        p;
}
