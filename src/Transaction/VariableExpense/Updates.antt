-- ===== src/Transaction/VariableExpense/Updates.antt =====
-- What every update of a variable expense keeps.
use aureum.Prelude.{
  ℕ, String, ◌≡◌, ◌≢◌, ◌⊎◌, inr, refl, true, false, none, some, arith, is_empty, eq_iff, ok,
  guards-ok, Maintains, when_some-Maintains, statements-Maintains,
}
use aureum.Prelude.Int.{ℤ, pos, ◌<ℤ◌}
use aureum.Transaction.Errors.{access_denied}
use aureum.Transaction.Types.{
  TransactionStatus, pending, valid_status, ExpenseType, PaymentMethod, valid_expense_type,
  valid_method,
}
use aureum.Transaction.Types.Transitions.{transition_keeps}
use aureum.Transaction.VariableExpense.{
  VariableExpense, CreateVariableExpenseInput, UpdateVariableExpenseInput, new_variable_expense,
  variable_expense_guards, fresh_variable_expense, apply_update, update_statements, check_owner,
  set_description, set_destination, set_category, set_expense_type, set_payment_method,
  set_payment_date, set_paid_amount, transition_status, set_updated,
}

-- The checks of `NewVariableExpense`, on the record.
pub record IsValid (x : VariableExpense) : Type 0 where
  pub description_ok : is_empty x.description ≡ false
  pub destination_ok : is_empty x.destination ≡ false
  pub category_ok : is_empty x.category ≡ false
  pub expense_type_ok : valid_expense_type x.expense_type ≡ true
  pub payment_method_ok : valid_method x.payment_method ≡ true
  pub payment_date_ok : is_empty x.payment_date ≡ false
  pub paid_amount_ok : pos 0 <ℤ x.paid_amount
  pub status_ok : valid_status x.status ≡ true

-- A record is created only past those checks, for the user of the request.
pub new_variable_expense-IsValid :
    (now : ℕ) (i : CreateVariableExpenseInput) {x : VariableExpense}
    → new_variable_expense now i ≡ ok x
    → IsValid x × (x.user_id ≡ i.user_id) × (is_empty x.user_id ≡ false)
unfolding new_variable_expense
new_variable_expense-IsValid now i h =
    let p = guards-ok (variable_expense_guards i) (ok (fresh_variable_expense now i)) h in
    ground arith

pub new_variable_expense-live :
    (now : ℕ) (i : CreateVariableExpenseInput) {x : VariableExpense}
    → new_variable_expense now i ≡ ok x
    → x.deleted_at ≡ none
unfolding new_variable_expense
new_variable_expense-live now i h =
    let p = guards-ok (variable_expense_guards i) (ok (fresh_variable_expense now i)) h in
    ground arith

-- A valid record with the id j, of the user u, whose status is s, or was pending where s is.
abbrev pub Keeps : String → String → TransactionStatus → VariableExpense → Type 0
Keeps j u s x = IsValid x × (x.id ≡ j) × (x.user_id ≡ u) × ((s ≡ pending) ⊎ (x.status ≡ s))

module _ (j u : String) (s : TransactionStatus) where
  check_owner-Keeps : (id : String) → Maintains (Keeps j u s) (check_owner id)
  unfolding check_owner
  check_owner-Keeps id x k = ground arith

  set_description-Keeps : (v : String) → Maintains (Keeps j u s) (set_description v)
  unfolding set_description
  set_description-Keeps v x k = ground arith

  set_destination-Keeps : (v : String) → Maintains (Keeps j u s) (set_destination v)
  unfolding set_destination
  set_destination-Keeps v x k = ground arith

  set_category-Keeps : (v : String) → Maintains (Keeps j u s) (set_category v)
  unfolding set_category
  set_category-Keeps v x k = ground arith

  set_expense_type-Keeps : (v : ExpenseType) → Maintains (Keeps j u s) (set_expense_type v)
  unfolding set_expense_type
  set_expense_type-Keeps v x k = ground arith

  set_payment_method-Keeps : (v : PaymentMethod) → Maintains (Keeps j u s) (set_payment_method v)
  unfolding set_payment_method
  set_payment_method-Keeps v x k = ground arith

  set_payment_date-Keeps : (v : String) → Maintains (Keeps j u s) (set_payment_date v)
  unfolding set_payment_date
  set_payment_date-Keeps v x k = ground arith

  set_paid_amount-Keeps : (v : ℤ) → Maintains (Keeps j u s) (set_paid_amount v)
  unfolding set_paid_amount
  set_paid_amount-Keeps v x k = ground arith

  transition_status-Keeps : (v : TransactionStatus) → Maintains (Keeps j u s) (transition_status v)
  unfolding transition_status
  transition_status-Keeps v x k = ground (arith, transition_keeps v x.status)

  set_updated-Keeps : (now : ℕ) → Maintains (Keeps j u s) (set_updated now)
  unfolding set_updated
  set_updated-Keeps now x k = ground arith

  pub apply_update-Keeps :
      (now : ℕ) (i : UpdateVariableExpenseInput) → Maintains (Keeps j u s) (apply_update now i)
  unfolding apply_update
  apply_update-Keeps now i =
      let P = Keeps j u s in
      statements-Maintains P (update_statements now i) (
        check_owner-Keeps i.user_id,
        (
          when_some-Maintains P i.description set_description (λ v _. set_description-Keeps v),
          (
            when_some-Maintains P i.destination set_destination (λ v _. set_destination-Keeps v),
            (
              when_some-Maintains P i.category set_category (λ v _. set_category-Keeps v),
              (
                when_some-Maintains P i.expense_type set_expense_type
                    (λ v _. set_expense_type-Keeps v),
                (
                  when_some-Maintains P i.payment_method set_payment_method
                      (λ v _. set_payment_method-Keeps v),
                  (
                    when_some-Maintains P i.payment_date set_payment_date
                        (λ v _. set_payment_date-Keeps v),
                    (
                      when_some-Maintains P i.paid_amount set_paid_amount
                          (λ v _. set_paid_amount-Keeps v),
                      (
                        when_some-Maintains P i.status transition_status
                            (λ v _. transition_status-Keeps v),
                        (set_updated-Keeps now, tt),
                      ),
                    ),
                  ),
                ),
              ),
            ),
          ),
        ),
      )

-- Every update, accepted or refused halfway, leaves a valid record valid and its owner as it is, and
-- a status other than pending never changes again.
pub update_variable_expense_keeps :
    (now : ℕ) (i : UpdateVariableExpenseInput) (x : VariableExpense)
    → IsValid x
    → let x' = (apply_update now i x).0 in
      IsValid x' × (x'.user_id ≡ x.user_id) × ((x.status ≡ pending) ⊎ (x'.status ≡ x.status))
update_variable_expense_keeps now i x v =
    let (v', _, u, s) =
      apply_update-Keeps x.id x.user_id x.status now i x (v, refl, refl, inr refl) in
    (v', u, s)

-- An update in the name of another user is refused and changes nothing.
update_variable_expense_denied :
    (now : ℕ) (i : UpdateVariableExpenseInput) (x : VariableExpense)
    → is_empty i.user_id ≡ false
    → i.user_id ≢ x.user_id
    → apply_update now i x ≡ (x, some access_denied)
unfolding apply_update
update_variable_expense_denied now i x h ne = ground (arith, eq_iff i.user_id x.user_id)
