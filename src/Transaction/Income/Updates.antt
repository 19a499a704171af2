-- ===== src/Transaction/Income/Updates.antt =====
-- What every update of an income keeps.
use aureum.Prelude.{
  ℕ, String, ◌≡◌, ◌≢◌, ◌⊎◌, inr, refl, true, false, none, some, arith, is_empty, eq_iff, ok,
  guards-ok, Maintains, when_some-Maintains, statements-Maintains,
}
use aureum.Prelude.Int.{ℤ, pos, ◌<ℤ◌}
use aureum.Transaction.Errors.{access_denied}
use aureum.Transaction.Types.{
  TransactionStatus, pending, valid_status, IncomeType, valid_income_type,
}
use aureum.Transaction.Types.Transitions.{transition_keeps}
use aureum.Transaction.Income.{
  Income, CreateIncomeInput, UpdateIncomeInput, new_income, income_guards, fresh_income,
  apply_update, update_statements, check_owner, set_description, set_source, set_income_type,
  set_received_date, set_received_amount, transition_status, set_updated,
}

-- The checks of `NewIncome`, on the record.
pub record IsValid (x : Income) : Type 0 where
  pub description_ok : is_empty x.description ≡ false
  pub source_ok : is_empty x.source ≡ false
  pub income_type_ok : valid_income_type x.income_type ≡ true
  pub received_date_ok : is_empty x.received_date ≡ false
  pub received_amount_ok : pos 0 <ℤ x.received_amount
  pub status_ok : valid_status x.status ≡ true

-- A record is created only past those checks, for the user of the request.
pub new_income-IsValid :
    (now : ℕ) (i : CreateIncomeInput) {x : Income}
    → new_income now i ≡ ok x
    → IsValid x × (x.user_id ≡ i.user_id) × (is_empty x.user_id ≡ false)
unfolding new_income
new_income-IsValid now i h =
    let p = guards-ok (income_guards i) (ok (fresh_income now i)) h in ground arith

pub new_income-live :
    (now : ℕ) (i : CreateIncomeInput) {x : Income} → new_income now i ≡ ok x → x.deleted_at ≡ none
unfolding new_income
new_income-live now i h =
    let p = guards-ok (income_guards i) (ok (fresh_income now i)) h in ground arith

-- A valid record with the id j, of the user u, whose status is s, or was pending where s is.
abbrev pub Keeps : String → String → TransactionStatus → Income → Type 0
Keeps j u s x = IsValid x × (x.id ≡ j) × (x.user_id ≡ u) × ((s ≡ pending) ⊎ (x.status ≡ s))

module _ (j u : String) (s : TransactionStatus) where
  check_owner-Keeps : (id : String) → Maintains (Keeps j u s) (check_owner id)
  unfolding check_owner
  check_owner-Keeps id x k = ground arith

  set_description-Keeps : (v : String) → Maintains (Keeps j u s) (set_description v)
  unfolding set_description
  set_description-Keeps v x k = ground arith

  set_source-Keeps : (v : String) → Maintains (Keeps j u s) (set_source v)
  unfolding set_source
  set_source-Keeps v x k = ground arith

  set_income_type-Keeps : (v : IncomeType) → Maintains (Keeps j u s) (set_income_type v)
  unfolding set_income_type
  set_income_type-Keeps v x k = ground arith

  set_received_date-Keeps : (v : String) → Maintains (Keeps j u s) (set_received_date v)
  unfolding set_received_date
  set_received_date-Keeps v x k = ground arith

  set_received_amount-Keeps : (v : ℤ) → Maintains (Keeps j u s) (set_received_amount v)
  unfolding set_received_amount
  set_received_amount-Keeps v x k = ground arith

  transition_status-Keeps : (v : TransactionStatus) → Maintains (Keeps j u s) (transition_status v)
  unfolding transition_status
  transition_status-Keeps v x k = ground (arith, transition_keeps v x.status)

  set_updated-Keeps : (now : ℕ) → Maintains (Keeps j u s) (set_updated now)
  unfolding set_updated
  set_updated-Keeps now x k = ground arith

  pub apply_update-Keeps :
      (now : ℕ) (i : UpdateIncomeInput) → Maintains (Keeps j u s) (apply_update now i)
  unfolding apply_update
  apply_update-Keeps now i =
      let P = Keeps j u s in
      statements-Maintains P (update_statements now i) (
        check_owner-Keeps i.user_id,
        (
          when_some-Maintains P i.description set_description (λ v _. set_description-Keeps v),
          (
            when_some-Maintains P i.source set_source (λ v _. set_source-Keeps v),
            (
              when_some-Maintains P i.income_type set_income_type (λ v _. set_income_type-Keeps v),
              (
                when_some-Maintains P i.received_date set_received_date
                    (λ v _. set_received_date-Keeps v),
                (
                  when_some-Maintains P i.received_amount set_received_amount
                      (λ v _. set_received_amount-Keeps v),
                  (
                    when_some-Maintains P i.status transition_status
                        (λ v _. transition_status-Keeps v),
                    (set_updated-Keeps now, tt),
                  ),
                ),
              ),
            ),
          ),
        ),
      )

-- Every update, accepted or refused halfway, leaves a valid record valid and its owner as it is, and
-- a status other than pending never changes again.
pub update_income_keeps :
    (now : ℕ) (i : UpdateIncomeInput) (x : Income)
    → IsValid x
    → let x' = (apply_update now i x).0 in
      IsValid x' × (x'.user_id ≡ x.user_id) × ((x.status ≡ pending) ⊎ (x'.status ≡ x.status))
update_income_keeps now i x v =
    let (v', _, u, s) =
      apply_update-Keeps x.id x.user_id x.status now i x (v, refl, refl, inr refl) in
    (v', u, s)

-- An update in the name of another user is refused and changes nothing.
update_income_denied :
    (now : ℕ) (i : UpdateIncomeInput) (x : Income)
    → is_empty i.user_id ≡ false
    → i.user_id ≢ x.user_id
    → apply_update now i x ≡ (x, some access_denied)
unfolding apply_update
update_income_denied now i x h ne = ground (arith, eq_iff i.user_id x.user_id)
