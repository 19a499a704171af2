-- ===== src/Transaction/Service/Incomes/Laws.antt =====
-- The laws of the table `incomes` and of its requests.
use aureum.Prelude.{
  ℕ, String, ◌≡◌, refl, inl, inr, ◌∙◌, true, arith, ok, Result-cases, Option-cases,
}
use aureum.Transaction.Income.{
  Income, CreateIncomeInput, UpdateIncomeInput, new_income, apply_update,
}
use aureum.Transaction.Income.Updates.{
  IsValid, apply_update-Keeps, new_income-IsValid, new_income-live,
}
use aureum.Transaction.Service.Stores.{same_event}
use aureum.Transaction.Service.Texts.{to_domain_income_type, to_domain_status, or_pending}
use aureum.Endpoint.Keys.{has_no_colon}
use aureum.Transaction.Service.Incomes.{
  income_kind, income_of, income_input, change_income, CreateIncomeRequest, UpdateIncomeRequest,
}
use aureum.Endpoint.Rows.{IsTable}
use aureum.Endpoint.Steps.{IsSound}
use aureum.Endpoint.Outbox.{IsNamed}

pub income-IsTable : IsTable income_kind
income-IsTable = record {
  id_set = λ d r. refl;
  owner_set = λ d r. refl;
  live_set = λ d r. refl;
  id_mark = λ now r. refl;
  owner_mark = λ now r. refl;
  dead_mark = λ now r. refl;
}

pub income-IsNamed : IsNamed income_kind
unfolding same_event
income-IsNamed = record {
  created_created = refl;
  created_updated = refl;
  created_deleted = refl;
  deleted_deleted = refl;
  deleted_updated = refl;
}

-- A valid income, of a user whose id has no colon.
abbrev pub IsProper : Income → Type 0
IsProper x = IsValid x × (has_no_colon x.user_id ≡ true)

abbrev pub IsColonFree : CreateIncomeRequest → Type 0
IsColonFree req = has_no_colon req.user_id ≡ true

-- What is built is what `NewIncome` returns, with the id.
income_of-new :
    (now : ℕ) (id : String) (req : CreateIncomeRequest) (d : Income)
    → income_of now id req ≡ ok d
    → (input : CreateIncomeInput) × (x : Income) × (new_income now input ≡ ok x)
      × (input.user_id ≡ req.user_id)
      × (d ≡ record x { id = id })
unfolding income_of
income_of-new now id req d h = elim (Result-cases (to_domain_income_type req.income_type)) [
  | inr (e, h0) ↦ ground arith
  | inl (income_type, h0) ↦ elim (Result-cases (to_domain_status req.status)) [
    | inr (e, h1) ↦ ground arith
    | inl (status, h1) ↦
        let input : CreateIncomeInput = record {
          user_id = req.user_id;
          description = req.description;
          source = req.source;
          income_type = income_type;
          received_date = req.received_date;
          received_amount = req.received_amount;
          status = or_pending status;
        } in
        elim (Result-cases (new_income now input)) [
          | inr (e, n) ↦ ground arith
          | inl (x, n) ↦ (input, x, n, refl, ground arith)
        ]
  ]
]

-- What is changed is what `ApplyUpdate` leaves, when it returns no error.
change_income-applied :
    (now : ℕ) (req : UpdateIncomeRequest) (x d : Income)
    → change_income now req x ≡ ok d
    → (input : UpdateIncomeInput) × (d ≡ (apply_update now input x).0)
unfolding change_income
change_income-applied now req x d h = elim (Result-cases (income_input req)) [
  | inr (e, i) ↦ ground arith
  | inl (input, i) ↦ elim (Option-cases ((apply_update now input x).1)) [
    | inl n ↦ (input, ground arith)
    | inr (e, n) ↦ ground arith
  ]
]

-- The checks read these columns.
IsValid-columns :
    (x y : Income)
    → y.description ≡ x.description
    → y.source ≡ x.source
    → y.income_type ≡ x.income_type
    → y.received_date ≡ x.received_date
    → y.received_amount ≡ x.received_amount
    → y.status ≡ x.status
    → IsValid x
    → IsValid y
IsValid-columns x y e0 e1 e2 e3 e4 e5 v = record {
  description_ok = rw e0 v.description_ok;
  source_ok = rw e1 v.source_ok;
  income_type_ok = rw e2 v.income_type_ok;
  received_date_ok = rw e3 v.received_date_ok;
  received_amount_ok = rw e4 v.received_amount_ok;
  status_ok = rw e5 v.status_ok;
}

pub income-IsSound : IsSound income_kind IsProper IsColonFree
income-IsSound = record {
  built = λ now id req d colon h.
      let (input, x, n, user, same) = income_of-new now id req d h in
      let (v, user', _) = new_income-IsValid now input n in
      let live = new_income-live now input n in
      (
        rw same (
          IsValid-columns x (record x { id = id }) refl refl refl refl refl refl v,
          rw (user' ∙ user) colon,
        ),
        rw same refl,
        rw (same, live) refl,
      );
  changed = λ now req x d (v, colon) h.
      let (input, same) = change_income-applied now req x d h in
      let (v', id, user, _) =
        apply_update-Keeps x.id x.user_id x.status now input x (v, refl, refl, inr refl) in
      (rw same (v', rw user colon), rw same id);
  set = λ d r p q.
      (IsValid-columns d (income_kind.set_columns d r) refl refl refl refl refl refl p.0, q.1);
  marked = λ now r p.
      (IsValid-columns r (income_kind.mark now r) refl refl refl refl refl refl p.0, p.1);
}
