-- ===== src/Debt/Account/Updates/Kept.antt =====
-- An update keeps the id of the debt.
use aureum.Prelude.{ℕ, String, ◌≡◌, arith, Maintains, statements-Maintains, when_some-Maintains}
use aureum.Prelude.Int.{ℤ}
use aureum.Debt.Account.{Debt, DebtType, DebtStatus, UpdateDebtInput, transition_status}
use aureum.Debt.Account.Updates.{
  check_owner, set_name, set_description, set_type, set_total, set_rate, set_end_date, set_creditor,
  set_updated, update_statements, apply_update,
}

abbrev HasId : String → Debt → Type 0
HasId k d = d.id ≡ k

check_owner-HasId : (k u : String) → Maintains (HasId k) (check_owner u)
unfolding check_owner
check_owner-HasId k u d h = ground (arith, h)

set_name-HasId : (k v : String) → Maintains (HasId k) (set_name v)
unfolding set_name
set_name-HasId k v d h = ground (arith, h)

set_type-HasId : (k : String) (v : DebtType) → Maintains (HasId k) (set_type v)
unfolding set_type
set_type-HasId k v d h = ground (arith, h)

set_total-HasId : (k : String) (v : ℤ) → Maintains (HasId k) (set_total v)
unfolding set_total
set_total-HasId k v d h = ground (arith, h)

transition_status-HasId : (k : String) (v : DebtStatus) → Maintains (HasId k) (transition_status v)
unfolding transition_status
transition_status-HasId k v d h = ground (arith, h)

pub apply_update-HasId :
    (k : String) (now : ℕ) (i : UpdateDebtInput) (d : Debt)
    → d.id ≡ k
    → (apply_update now i d).0.id ≡ k
unfolding apply_update set_description set_rate set_end_date set_creditor set_updated
apply_update-HasId k now i =
    let P = HasId k in
    statements-Maintains P (update_statements now i) (
      check_owner-HasId k i.user_id,
      (
        when_some-Maintains P i.name set_name (λ v _. set_name-HasId k v),
        (
          when_some-Maintains P i.description set_description (λ v _ d h. h),
          (
            when_some-Maintains P i.debt_type set_type (λ v _. set_type-HasId k v),
            (
              when_some-Maintains P i.total_amount set_total (λ v _. set_total-HasId k v),
              (
                when_some-Maintains P i.interest_rate set_rate (λ v _ d h. h),
                (
                  when_some-Maintains P i.expected_end_date set_end_date (λ v _ d h. h),
                  (
                    when_some-Maintains P i.status transition_status
                        (λ v _. transition_status-HasId k v),
                    (
                      when_some-Maintains P i.creditor set_creditor (λ v _ d h. h),
                      ((λ d h. h), tt),
                    ),
                  ),
                ),
              ),
            ),
          ),
        ),
      ),
    )
