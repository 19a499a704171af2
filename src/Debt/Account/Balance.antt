-- ===== src/Debt/Account/Balance.antt =====
-- What payments and updates do to the amounts of a debt.
use text.Mathlib.TextPositions.{eq_refl}
use aureum.Prelude.{
  ℕ, ◌≡◌, ◌↔◌, ◌≢◌, ap, ◌∙◌, Option, none, some, List, [], ◌∷◌, inl, inr, Option-cases, arith, ok,
  guards-ok,
}
use aureum.Prelude.Int.{ℤ, pos, ◌+ℤ◌, ◌-ℤ◌, ◌≤ℤ◌, ◌<ℤ◌, IsInt64, int_laws, sub64_nonneg}
use aureum.Debt.Account.Updates.{apply_update}
use aureum.Debt.Errors.{Err}
use aureum.Debt.Account.{
  Debt, paid_off, settled, apply_payment, UpdateDebtInput, new_debt, CreateDebtInput, debt_guards,
  fresh_debt, transition_status,
}

-- What is left to pay is an int64 that is not negative.
pub record IsValid (d : Debt) : Type 0 where
  pub remaining_range : IsInt64 d.remaining_amount
  pub remaining_nonneg : pos 0 ≤ℤ d.remaining_amount

-- A payment is accepted exactly when it is positive, the debt is not paid off, and no more is paid
-- than is left.
apply_payment_accepts :
    (now : ℕ) (amount : ℤ) (d : Debt)
    → ((apply_payment now amount d).1 ≡ none)
      ↔ ((pos 0 <ℤ amount) × (d.status ≢ paid_off) × (amount ≤ℤ d.remaining_amount))
unfolding apply_payment
apply_payment_accepts now amount d = ground arith

-- Every payment, accepted or refused, leaves a valid debt valid.
pub apply_payment-IsValid :
    (now : ℕ) (amount : ℤ) (d : Debt)
    → IsInt64 amount
    → IsValid d
    → IsValid (apply_payment now amount d).0
unfolding apply_payment ◌-ℤ◌
apply_payment-IsValid now amount d ha v = ground (arith, sub64_nonneg d.remaining_amount amount)

-- An accepted payment lowers what is left by its amount, leaves the total, and marks the debt paid
-- off exactly when nothing is left.
pub apply_payment_settles :
    (now : ℕ) (amount : ℤ) (d : Debt)
    → IsInt64 amount
    → IsValid d
    → (apply_payment now amount d).1 ≡ none
    → let d' = (apply_payment now amount d).0 in
      (d'.remaining_amount +ℤ amount ≡ d.remaining_amount)
      × (d'.total_amount ≡ d.total_amount)
      × ((d'.status ≡ paid_off) ↔ (d'.remaining_amount ≡ pos 0))
unfolding apply_payment ◌-ℤ◌ ◌+ℤ◌
apply_payment_settles now amount d ha v h = ground (arith, sub64_nonneg d.remaining_amount amount)

apply_payment_refused :
    (now : ℕ) (amount : ℤ) (d : Debt) {e : Err}
    → (apply_payment now amount d).1 ≡ some e
    → (apply_payment now amount d).0 ≡ d
unfolding apply_payment
apply_payment_refused now amount d h = ground arith

-- What a run of payments collects, and the debt after it. A refused payment collects nothing.
abbrev pub collect : Option Err → ℤ → ℤ → ℤ
collect none amount sum = amount +ℤ sum
collect (some e) amount sum = sum

unfoldable pub repay : List (ℕ × ℤ) → Debt → ℤ × Debt
repay [] d = (pos 0, d)
repay ((now, amount) ∷ ps) d =
    let (d', e) = apply_payment now amount d in
    let rest = repay ps d' in (collect e amount rest.0, rest.1)

-- Every amount is an int64.
abbrev pub AllInt64 : List (ℕ × ℤ) → Type 0
AllInt64 [] = Unit
AllInt64 ((_, amount) ∷ ps) = IsInt64 amount × AllInt64 ps

move : (a b c : ℤ) → c +ℤ a +ℤ b ≡ a +ℤ b +ℤ c
move a b c = omega int_laws

collect-step :
    (now : ℕ) (amount sum left : ℤ) (d : Debt)
    → IsInt64 amount
    → IsValid d
    → sum +ℤ left ≡ (apply_payment now amount d).0.remaining_amount
    → collect (apply_payment now amount d).1 amount sum +ℤ left ≡ d.remaining_amount
collect-step now amount sum left d ha v h = elim (Option-cases (apply_payment now amount d).1) [
  | inl e ↦ rw e (
      move sum left amount
      ∙ ap (λ t. t +ℤ amount) h
      ∙ (apply_payment_settles now amount d ha v e).0)
  | inr (x, e) ↦
      rw e (h ∙ ap (λ (t : Debt). t.remaining_amount) (apply_payment_refused now amount d e))
]

-- Over any run of payments, accepted or refused, what is collected and what is left add up to what
-- was left before, and the debt stays valid.
pub repay_balances :
    (ps : List (ℕ × ℤ)) (d : Debt)
    → AllInt64 ps
    → IsValid d
    → let (sum, d') = repay ps d in (sum +ℤ d'.remaining_amount ≡ d.remaining_amount) × IsValid d'
unfolding repay
repay_balances [] d ha v = (omega int_laws, v)
repay_balances ((now, amount) ∷ ps) d ha v =
    let d' = (apply_payment now amount d).0 in
    let (rest, v') = repay_balances ps d' ha.1 (apply_payment-IsValid now amount d ha.0 v) in
    (collect-step now amount (repay ps d').0 (repay ps d').1.remaining_amount d ha.0 v rest, v')

-- A new debt is valid, and all of it is left to pay.
pub new_debt-IsValid :
    (now : ℕ) (i : CreateDebtInput) {d : Debt}
    → IsInt64 i.total_amount
    → new_debt now i ≡ ok d
    → IsValid d × (d.remaining_amount ≡ d.total_amount) × (pos 0 <ℤ d.total_amount)
unfolding new_debt
new_debt-IsValid now i r h =
    let p = guards-ok (debt_guards i) (ok (fresh_debt now i)) h in ground arith

pub new_debt-fields :
    (now : ℕ) (i : CreateDebtInput) {d : Debt}
    → new_debt now i ≡ ok d
    → (d.user_id ≡ i.user_id) × (d.deleted_at ≡ none) × (d.total_amount ≡ i.total_amount)
unfolding new_debt
new_debt-fields now i h =
    let p = guards-ok (debt_guards i) (ok (fresh_debt now i)) h in
    (ground (arith, p), ground (arith, p), ground (arith, p))

-- A settled debt, whose status allows no transition, still takes payments, and the one that pays
-- the rest turns it into a debt that is paid off.
pub settled_takes_payments :
    (now : ℕ) (d : Debt)
    → IsValid d
    → d.status ≡ settled
    → pos 0 <ℤ d.remaining_amount
    → let (d', e) = apply_payment now d.remaining_amount d in
      (e ≡ none) × (d'.status ≡ paid_off) × ((transition_status paid_off d).1 ≢ none)
unfolding apply_payment transition_status ◌-ℤ◌
settled_takes_payments now d v st p =
    ground (arith, sub64_nonneg d.remaining_amount d.remaining_amount)

-- A request that sets the total alone.
abbrev pub total_update : Debt → ℤ → UpdateDebtInput
total_update d v = record {
  id = d.id;
  user_id = d.user_id;
  name = none;
  description = none;
  debt_type = none;
  total_amount = some v;
  interest_rate = none;
  expected_end_date = none;
  status = none;
  creditor = none;
}

-- An update of the total leaves what is left to pay as it is: a total below it is accepted, and
-- more is then left than the whole debt amounts to.
pub apply_update_strands :
    (now : ℕ) (v : ℤ) (d : Debt)
    → pos 0 <ℤ v
    → v <ℤ d.remaining_amount
    → let (d', e) = apply_update now (total_update d v) d in
      (e ≡ none) × (d'.total_amount <ℤ d'.remaining_amount)
unfolding apply_update
apply_update_strands now v d p lt = ground (arith, eq_refl d.user_id)
