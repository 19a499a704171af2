-- ===== src/Transaction/Service/Texts/Round.antt =====
-- The texts of the types of the domain, and the types of their texts.
use aureum.Prelude.{String, ◌≡◌, refl, ◌↔◌, true, ok, arith, eq_iff}
use aureum.Transaction.Types.{
  TransactionStatus, PaymentMethod, ExpenseType, IncomeType, pending, completed, cancelled, unknown,
  credit_card, debit_card, cash, bank_transfer, pix, no_method, essential, discretionary,
  occasional, emergency, no_expense, salary, freelance, investment, business, refund, no_income,
  valid_status, valid_method, valid_expense_type, valid_income_type,
}
use aureum.Transaction.Service.Texts.{
  to_domain_status, to_domain_income_type, to_domain_payment_method, to_domain_expense_type,
  status_text, income_type_text, payment_method_text, expense_type_text,
}

status_text-to_domain :
    (s : String) (t : TransactionStatus)
    → to_domain_status s ≡ ok t
    → (valid_status t ≡ true) × (s ≡ status_text t)
unfolding to_domain_status valid_status status_text
status_text-to_domain s t h =
    ground (arith, h, eq_iff s "pending", eq_iff s "completed", eq_iff s "cancelled")

to_domain-status_text :
    (t : TransactionStatus) → valid_status t ≡ true → to_domain_status (status_text t) ≡ ok t
unfolding to_domain_status valid_status status_text
to_domain-status_text pending v = refl
to_domain-status_text completed v = refl
to_domain-status_text cancelled v = refl
to_domain-status_text (unknown x) v = cc v

income_type_text-to_domain :
    (s : String) (t : IncomeType)
    → to_domain_income_type s ≡ ok t
    → (valid_income_type t ≡ true) × (s ≡ income_type_text t)
unfolding to_domain_income_type valid_income_type income_type_text
income_type_text-to_domain s t h = ground (
  arith,
  h,
  eq_iff s "salary",
  eq_iff s "freelance",
  eq_iff s "investment",
  eq_iff s "business",
  eq_iff s "refund",
  eq_iff s "other",
)

to_domain-income_type_text :
    (t : IncomeType)
    → valid_income_type t ≡ true
    → to_domain_income_type (income_type_text t) ≡ ok t
unfolding to_domain_income_type valid_income_type income_type_text
to_domain-income_type_text salary v = refl
to_domain-income_type_text freelance v = refl
to_domain-income_type_text investment v = refl
to_domain-income_type_text business v = refl
to_domain-income_type_text refund v = refl
to_domain-income_type_text IncomeType.other v = refl
to_domain-income_type_text (no_income x) v = cc v

payment_method_text-to_domain :
    (s : String) (t : PaymentMethod)
    → to_domain_payment_method s ≡ ok t
    → (valid_method t ≡ true) × (s ≡ payment_method_text t)
unfolding to_domain_payment_method valid_method payment_method_text
payment_method_text-to_domain s t h = ground (
  arith,
  h,
  eq_iff s "credit_card",
  eq_iff s "debit_card",
  eq_iff s "cash",
  eq_iff s "bank_transfer",
  eq_iff s "pix",
  eq_iff s "other",
)

to_domain-payment_method_text :
    (t : PaymentMethod)
    → valid_method t ≡ true
    → to_domain_payment_method (payment_method_text t) ≡ ok t
unfolding to_domain_payment_method valid_method payment_method_text
to_domain-payment_method_text credit_card v = refl
to_domain-payment_method_text debit_card v = refl
to_domain-payment_method_text cash v = refl
to_domain-payment_method_text bank_transfer v = refl
to_domain-payment_method_text pix v = refl
to_domain-payment_method_text PaymentMethod.other v = refl
to_domain-payment_method_text (no_method x) v = cc v

expense_type_text-to_domain :
    (s : String) (t : ExpenseType)
    → to_domain_expense_type s ≡ ok t
    → (valid_expense_type t ≡ true) × (s ≡ expense_type_text t)
unfolding to_domain_expense_type valid_expense_type expense_type_text
expense_type_text-to_domain s t h = ground (
  arith,
  h,
  eq_iff s "essential",
  eq_iff s "discretionary",
  eq_iff s "occasional",
  eq_iff s "emergency",
  eq_iff s "other",
)

to_domain-expense_type_text :
    (t : ExpenseType)
    → valid_expense_type t ≡ true
    → to_domain_expense_type (expense_type_text t) ≡ ok t
unfolding to_domain_expense_type valid_expense_type expense_type_text
to_domain-expense_type_text essential v = refl
to_domain-expense_type_text discretionary v = refl
to_domain-expense_type_text occasional v = refl
to_domain-expense_type_text emergency v = refl
to_domain-expense_type_text ExpenseType.other v = refl
to_domain-expense_type_text (no_expense x) v = cc v

-- A text is read as a type of the domain exactly when it is the text of that type and the type is
-- one that the domain takes: for statuses, types of income, methods of payment and types of expense.
pub to_domain_iff :
    (text : String) (status : TransactionStatus) (income_type : IncomeType) (method : PaymentMethod)
    (expense_type : ExpenseType)
    → ((to_domain_status text ≡ ok status)
        ↔ ((valid_status status ≡ true) × (text ≡ status_text status)))
      × ((to_domain_income_type text ≡ ok income_type)
          ↔ ((valid_income_type income_type ≡ true) × (text ≡ income_type_text income_type)))
      × ((to_domain_payment_method text ≡ ok method)
          ↔ ((valid_method method ≡ true) × (text ≡ payment_method_text method)))
      × ((to_domain_expense_type text ≡ ok expense_type)
          ↔ ((valid_expense_type expense_type ≡ true) × (text ≡ expense_type_text expense_type)))
to_domain_iff text status income_type method expense_type = (
  (status_text-to_domain text status, λ (v, e). rw e (to_domain-status_text status v)),
  (
    income_type_text-to_domain text income_type,
    λ (v, e). rw e (to_domain-income_type_text income_type v),
  ),
  (
    payment_method_text-to_domain text method,
    λ (v, e). rw e (to_domain-payment_method_text method v),
  ),
  (
    expense_type_text-to_domain text expense_type,
    λ (v, e). rw e (to_domain-expense_type_text expense_type v),
  ),
)
