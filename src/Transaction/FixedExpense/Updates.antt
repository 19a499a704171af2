-- ===== src/Transaction/FixedExpense/Updates.antt =====
-- What every update of a fixed expense keeps.
use aureum.Prelude.{
  ℕ, String, ◌≡◌, ◌≢◌, ◌⊎◌, inr, refl, true, false, none, some, arith, is_empty, eq_iff, ok,
  guards-ok, Maintains, when_some-Maintains, statements-Maintains,
}
use aureum.Prelude.Int.{ℤ, pos, ◌≤ℤ◌}
use aureum.Transaction.Errors.{access_denied}
use aureum.Transaction.Types.{TransactionStatus, pending, valid_status, PaymentMethod, valid_method}
use aureum.Transaction.Types.Transitions.{transition_keeps}
use aureum.Transaction.FixedExpense.{
  FixedExpense, CreateFixedExpenseInput, UpdateFixedExpenseInput, new_fixed_expense,
  fixed_expense_guards, fresh_fixed_expense, apply_update, update_statements, check_owner,
  set_description, set_category, set_day_of_month, set_payment_method, transition_status,
  set_updated,
}

-- The checks of `NewFixedExpense`, on the record.
pub record IsValid (x : FixedExpense) : Type 0 where
  pub description_ok : is_empty x.description ≡ false
  pub category_ok : is_empty x.category ≡ false
  pub day_of_month_ok : (pos 1 ≤ℤ x.day_of_month) × (x.day_of_month ≤ℤ pos 31)
  pub payment_method_ok : valid_method x.payment_method ≡ true
  pub status_ok : valid_status x.status ≡ true

-- A record is created only past those checks, for the user of the request.
pub new_fixed_expense-IsValid :
    (now : ℕ) (i : CreateFixedExpenseInput) {x : FixedExpense}
    → new_fixed_expense now i ≡ ok x
    → IsValid x × (x.user_id ≡ i.user_id) × (is_empty x.user_id ≡ false)
unfolding new_fixed_expense
new_fixed_expense-IsValid now i h =
    let p = guards-ok (fixed_expense_guards i) (ok (fresh_fixed_expense now i)) h in ground arith

pub new_fixed_expense-live :
    (now : ℕ) (i : CreateFixedExpenseInput) {x : FixedExpense}
    → new_fixed_expense now i ≡ ok x
    → x.deleted_at ≡ none
unfolding new_fixed_expense
new_fixed_expense-live now i h =
    let p = guards-ok (fixed_expense_guards i) (ok (fresh_fixed_expense now i)) h in ground arith

-- A valid record with the id j, of the user u, whose status is s, or was pending where s is.
abbrev pub Keeps : String → String → TransactionStatus → FixedExpense → Type 0
Keeps j u s x = IsValid x × (x.id ≡ j) × (x.user_id ≡ u) × ((s ≡ pending) ⊎ (x.status ≡ s))

module _ (j u : String) (s : TransactionStatus) where
  check_owner-Keeps : (id : String) → Maintains (Keeps j u s) (check_owner id)
  unfolding check_owner
  check_owner-Keeps id x k = ground arith

  set_description-Keeps : (v : String) → Maintains (Keeps j u s) (set_description v)
  unfolding set_description
  set_description-Keeps v x k = ground arith

  set_category-Keeps : (v : String) → Maintains (Keeps j u s) (set_category v)
  unfolding set_category
  set_category-Keeps v x k = ground arith

  set_day_of_month-Keeps : (v : ℤ) → Maintains (Keeps j u s) (set_day_of_month v)
  unfolding set_day_of_month
  set_day_of_month-Keeps v x k = ground arith

  set_payment_method-Keeps : (v : PaymentMethod) → Maintains (Keeps j u s) (set_payment_method v)
  unfolding set_payment_method
  set_payment_method-Keeps v x k = ground arith

  transition_status-Keeps : (v : TransactionStatus) → Maintains (Keeps j u s) (transition_status v)
  unfolding transition_status
  transition_status-Keeps v x k = ground (arith, transition_keeps v x.status)

  set_updated-Keeps : (now : ℕ) → Maintains (Keeps j u s) (set_updated now)
  unfolding set_updated
  set_updated-Keeps now x k = ground arith

  pub apply_update-Keeps :
      (now : ℕ) (i : UpdateFixedExpenseInput) → Maintains (Keeps j u s) (apply_update now i)
  unfolding apply_update
  apply_update-Keeps now i =
      let P = Keeps j u s in
      statements-Maintains P (update_statements now i) (
        check_owner-Keeps i.user_id,
        (
          when_some-Maintains P i.description set_description (λ v _. set_description-Keeps v),
          (
            when_some-Maintains P i.category set_category (λ v _. set_category-Keeps v),
            (
              when_some-Maintains P i.day_of_month set_day_of_month
                  (λ v _. set_day_of_month-Keeps v),
              (
                when_some-Maintains P i.payment_method set_payment_method
                    (λ v _. set_payment_method-Keeps v),
                (
                  when_some-Maintains P i.status transition_status
                      (λ v _. transition_status-Keeps v),
                  (set_updated-Keeps now, tt),
                ),
              ),
            ),
          ),
        ),
      )

-- Every update, accepted or refused halfway, leaves a valid record valid and its owner as it is, and
-- a status other than pending never changes again.
update_fixed_expense_keeps :
    (now : ℕ) (i : UpdateFixedExpenseInput) (x : FixedExpense)
    → IsValid x
    → let x' = (apply_update now i x).0 in
      IsValid x' × (x'.user_id ≡ x.user_id) × ((x.status ≡ pending) ⊎ (x'.status ≡ x.status))
update_fixed_expense_keeps now i x v =
    let (v', _, u, s) =
      apply_update-Keeps x.id x.user_id x.status now i x (v, refl, refl, inr refl) in
    (v', u, s)

-- An update in the name of another user is refused and changes nothing.
update_fixed_expense_denied :
    (now : ℕ) (i : UpdateFixedExpenseInput) (x : FixedExpense)
    → is_empty i.user_id ≡ false
    → i.user_id ≢ x.user_id
    → apply_update now i x ≡ (x, some access_denied)
unfolding apply_update
update_fixed_expense_denied now i x h ne = ground (arith, eq_iff i.user_id x.user_id)
