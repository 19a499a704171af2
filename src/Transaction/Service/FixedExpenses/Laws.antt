-- ===== src/Transaction/Service/FixedExpenses/Laws.antt =====
-- The laws of the table `fixed_expenses` and of its requests.
use aureum.Prelude.{ℕ, String, ◌≡◌, refl, inl, inr, arith, ok, Result-cases, Option-cases}
use aureum.Transaction.FixedExpense.{
  FixedExpense, CreateFixedExpenseInput, UpdateFixedExpenseInput, new_fixed_expense, apply_update,
}
use aureum.Transaction.FixedExpense.Updates.{
  IsValid, apply_update-Keeps, new_fixed_expense-IsValid, new_fixed_expense-live,
}
use aureum.Transaction.Service.Stores.{same_event}
use aureum.Transaction.Service.Texts.{to_domain_payment_method, to_domain_status, or_pending}
use aureum.Transaction.Service.FixedExpenses.{
  fixed_expense_kind, fixed_expense_of, fixed_expense_input, change_fixed_expense,
  CreateFixedExpenseRequest, UpdateFixedExpenseRequest,
}
use aureum.Endpoint.Rows.{IsTable}
use aureum.Endpoint.Steps.{IsSound}
use aureum.Endpoint.Outbox.{IsNamed}

pub fixed_expense-IsTable : IsTable fixed_expense_kind
fixed_expense-IsTable = record {
  id_set = λ d r. refl;
  owner_set = λ d r. refl;
  live_set = λ d r. refl;
  id_mark = λ now r. refl;
  owner_mark = λ now r. refl;
  dead_mark = λ now r. refl;
}

pub fixed_expense-IsNamed : IsNamed fixed_expense_kind
unfolding same_event
fixed_expense-IsNamed = record {
  created_created = refl;
  created_updated = refl;
  created_deleted = refl;
  deleted_deleted = refl;
  deleted_updated = refl;
}

-- What is built is what `NewFixedExpense` returns, with the id.
fixed_expense_of-new :
    (now : ℕ) (id : String) (req : CreateFixedExpenseRequest) (d : FixedExpense)
    → fixed_expense_of now id req ≡ ok d
    → (input : CreateFixedExpenseInput) × (x : FixedExpense) × (new_fixed_expense now input ≡ ok x)
      × (input.user_id ≡ req.user_id)
      × (d ≡ record x { id = id })
unfolding fixed_expense_of
fixed_expense_of-new now id req d h =
    elim (Result-cases (to_domain_payment_method req.payment_method)) [
      | inr (e, h0) ↦ ground arith
      | inl (payment_method, h0) ↦ elim (Result-cases (to_domain_status req.status)) [
        | inr (e, h1) ↦ ground arith
        | inl (status, h1) ↦
            let input : CreateFixedExpenseInput = record {
              user_id = req.user_id;
              description = req.description;
              category = req.category;
              day_of_month = req.day_of_month;
              payment_method = payment_method;
              status = or_pending status;
            } in
            elim (Result-cases (new_fixed_expense now input)) [
              | inr (e, n) ↦ ground arith
              | inl (x, n) ↦ (input, x, n, refl, ground arith)
            ]
      ]
    ]

-- What is changed is what `ApplyUpdate` leaves, when it returns no error.
change_fixed_expense-applied :
    (now : ℕ) (req : UpdateFixedExpenseRequest) (x d : FixedExpense)
    → change_fixed_expense now req x ≡ ok d
    → (input : UpdateFixedExpenseInput) × (d ≡ (apply_update now input x).0)
unfolding change_fixed_expense
change_fixed_expense-applied now req x d h = elim (Result-cases (fixed_expense_input req)) [
  | inr (e, i) ↦ ground arith
  | inl (input, i) ↦ elim (Option-cases ((apply_update now input x).1)) [
    | inl n ↦ (input, ground arith)
    | inr (e, n) ↦ ground arith
  ]
]

-- The checks read these columns.
IsValid-columns :
    (x y : FixedExpense)
    → y.description ≡ x.description
    → y.category ≡ x.category
    → y.day_of_month ≡ x.day_of_month
    → y.payment_method ≡ x.payment_method
    → y.status ≡ x.status
    → IsValid x
    → IsValid y
IsValid-columns x y e0 e1 e2 e3 e4 v = record {
  description_ok = rw e0 v.description_ok;
  category_ok = rw e1 v.category_ok;
  day_of_month_ok = rw e2 v.day_of_month_ok;
  payment_method_ok = rw e3 v.payment_method_ok;
  status_ok = rw e4 v.status_ok;
}

pub fixed_expense-IsSound : IsSound fixed_expense_kind IsValid (λ req. Unit)
fixed_expense-IsSound = record {
  built = λ now id req d q h.
      let (input, x, n, user, same) = fixed_expense_of-new now id req d h in
      let (v, _, _) = new_fixed_expense-IsValid now input n in
      let live = new_fixed_expense-live now input n in
      (
        rw same (IsValid-columns x (record x { id = id }) refl refl refl refl refl v),
        rw same refl,
        rw (same, live) refl,
      );
  changed = λ now req x d v h.
      let (input, same) = change_fixed_expense-applied now req x d h in
      let (v', id, _, _) =
        apply_update-Keeps x.id x.user_id x.status now input x (v, refl, refl, inr refl) in
      (rw same v', rw same id);
  set =
      λ d r p q. IsValid-columns d (fixed_expense_kind.set_columns d r) refl refl refl refl refl p;
  marked = λ now r p. IsValid-columns r (fixed_expense_kind.mark now r) refl refl refl refl refl p;
}
