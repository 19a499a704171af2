-- ===== src/Debt/Service/Payments/Ledger.antt =====
-- The balance of a debt over the requests to pay: what is left of it and what is recorded for it.
use aureum.Prelude.{
  ℕ, String, ◌≡◌, ◌≢◌, inl, inr, ap, sym, subst, ◌∙◌, none, some, List, [], ◌∷◌, str_eq, arith,
  eq_iff, Bool-cases,
}
use aureum.Prelude.Int.{ℤ, ◌+ℤ◌, IsInt64, int_laws}
use aureum.Debt.Account.{Debt, apply_payment}
use aureum.Debt.Account.Balance.{IsValid, apply_payment-IsValid, apply_payment_settles}
use aureum.Debt.Tables.{Tables, find_debt}
use aureum.Debt.Tables.Rows.{
  HasUniqueIds, HasUniqueIds-update_debt, find_debt-ids, find_debt_unique, find_debt-update_debt,
  find_debt-update_debt_ne,
}
use aureum.Debt.Service.{World, Faults, RegisterPaymentRequest, register_payment}
use aureum.Debt.Service.Payments.{
  recorded, recorded-append, set_debt-apply_payment, Written, register_payment-cases,
}

-- The debt of a user with what it has left and what was recorded for it.
pub record Ledger (id user_id : String) (total : ℤ) (t : Tables) : Type 0 where
  pub d : Debt
  pub found_debt : find_debt id user_id t.debts ≡ some d
  pub valid : IsValid d
  pub balance : d.remaining_amount +ℤ recorded id t.payments ≡ total

-- A payment on the debt.
moved : (a b c : ℤ) → a +ℤ (b +ℤ c) ≡ a +ℤ c +ℤ b
moved a b c = omega int_laws

Ledger-own :
    (now : ℕ) (req : RegisterPaymentRequest) (user_id : String) (total : ℤ) (t t' : Tables)
    → IsInt64 req.amount
    → HasUniqueIds t.debts
    → Written now req t t'
    → Ledger req.debt_id user_id total t
    → Ledger req.debt_id user_id total t'
Ledger-own now req user_id total t t' ha u w l =
    let d = l.d in
    let d' = (apply_payment now req.amount d).0 in
    let one : w.d ≡ d =
      find_debt_unique req.debt_id req.user_id user_id t.debts u w.found_debt l.found_debt in
    let fit : (apply_payment now req.amount d).1 ≡ none = rw (sym one) (w.accepted) in
    let (same, id) = set_debt-apply_payment now req.amount d in
    let ids = find_debt-ids req.debt_id user_id t.debts l.found_debt in
    let settles = apply_payment_settles now req.amount d ha l.valid fit in
    let sum : recorded req.debt_id t'.payments ≡ recorded req.debt_id t.payments +ℤ req.amount =
      rw w.added (
        recorded-append req.debt_id t.payments w.payment
        ∙ ground (arith, eq_iff w.payment.debt_id req.debt_id, w.of_debt, w.of_amount)) in
    record {
      d = d';
      found_debt =
          rw (w.rows, one)
            (find_debt-update_debt req.debt_id user_id d' t.debts l.found_debt (id ∙ ids.0)
              ∙ ap some same);
      valid = apply_payment-IsValid now req.amount d ha l.valid;
      balance =
          ap (λ s. d'.remaining_amount +ℤ s) sum
          ∙ moved d'.remaining_amount (recorded req.debt_id t.payments) req.amount
          ∙ ap (λ s. s +ℤ recorded req.debt_id t.payments) settles.0
          ∙ l.balance;
    }

-- A payment on another debt.
Ledger-other :
    (now : ℕ) (req : RegisterPaymentRequest) (id user_id : String) (total : ℤ) (t t' : Tables)
    → req.debt_id ≢ id
    → Written now req t t'
    → Ledger id user_id total t
    → Ledger id user_id total t'
Ledger-other now req id user_id total t t' ne w l =
    let d' = (apply_payment now req.amount w.d).0 in
    let ids = find_debt-ids req.debt_id req.user_id t.debts w.found_debt in
    let id' : d'.id ≡ req.debt_id = (set_debt-apply_payment now req.amount w.d).1 ∙ ids.0 in
    record {
      d = l.d;
      found_debt =
          rw w.rows
            (find_debt-update_debt_ne id user_id d' t.debts (λ e. ne (sym id' ∙ e)) ∙ l.found_debt);
      valid = l.valid;
      balance =
          ap (λ s. l.d.remaining_amount +ℤ s)
            (rw w.added (
              recorded-append id t.payments w.payment
              ∙ ground (arith, eq_iff w.payment.debt_id id, w.of_debt, ne)))
          ∙ l.balance;
    }

Ledger-Written :
    (now : ℕ) (req : RegisterPaymentRequest) (id user_id : String) (total : ℤ) (t t' : Tables)
    → IsInt64 req.amount
    → HasUniqueIds t.debts
    → Written now req t t'
    → Ledger id user_id total t
    → Ledger id user_id total t'
Ledger-Written now req id user_id total t t' ha u w l = elim (Bool-cases (str_eq req.debt_id id)) [
  | inl e ↦
      let same : req.debt_id ≡ id = (eq_iff req.debt_id id).0 e in
      subst (λ i. Ledger i user_id total t') same
        (Ledger-own now req user_id total t t' ha u w
          (subst (λ i. Ledger i user_id total t) (sym same) l))
  | inr e ↦
      Ledger-other now req id user_id total t t'
        (λ same. ground (arith, eq_iff req.debt_id id, same, e)) w l
]

-- A call of `RegisterPayment`: the calls under it that fail, the time, the id of the payment, and
-- the request.
abbrev pub Call : Type 0
Call = Faults × ℕ × String × RegisterPaymentRequest

abbrev pub AllInt64 : List Call → Type 0
AllInt64 [] = Unit
AllInt64 ((faults, now, id, req) ∷ cs) = IsInt64 req.amount × AllInt64 cs

-- The world after calls in turn.
unfoldable pub register_payments : List Call → World → World
register_payments [] w = w
register_payments ((faults, now, id, req) ∷ cs) w =
    register_payments cs (register_payment faults now id req w).0

HasUniqueIds-Written :
    (now : ℕ) (req : RegisterPaymentRequest) (t t' : Tables)
    → HasUniqueIds t.debts
    → Written now req t t'
    → HasUniqueIds t'.debts
HasUniqueIds-Written now req t t' u w =
    rw w.rows (HasUniqueIds-update_debt (apply_payment now req.amount w.d).0 t.debts u)

-- Over any calls of RegisterPayment, by any users for any debts, accepted, refused or replayed, and
-- with any of their reads and writes failing: where ids name one row, amounts are int64, and a user
-- has a valid debt, the user has the debt afterwards, still valid, and what is left of it
-- and the payments that are recorded for it add up to what they did.
pub register_payments_balance :
    (cs : List Call) (id user_id : String) (total : ℤ) (w : World)
    → AllInt64 cs
    → HasUniqueIds w.tables.debts
    → Ledger id user_id total w.tables
    → Ledger id user_id total (register_payments cs w).tables
unfolding register_payments
register_payments_balance [] id user_id total w ha u l = l
register_payments_balance ((faults, now, k, req) ∷ cs) id user_id total w ha u l =
    let t' = (register_payment faults now k req w).0.tables in
    let (u', l') : HasUniqueIds t'.debts × Ledger id user_id total t' =
      elim (register_payment-cases faults now k req w) [
        | inl e ↦ (rw e u, rw e l)
        | inr (x, _) ↦ (
          HasUniqueIds-Written now req w.tables t' u x,
          Ledger-Written now req id user_id total w.tables t' ha.0 u x l,
        )
      ] in
    register_payments_balance cs id user_id total (register_payment faults now k req w).0 ha.1 u' l'
