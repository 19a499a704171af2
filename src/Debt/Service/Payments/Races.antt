-- ===== src/Debt/Service/Payments/Races.antt =====
-- Two payments whose reads of the debt both come before their writes.
use aureum.Prelude.{ℕ, ◌≡◌, ◌∙◌, ap, none, some, [], ◌∷◌, ◌++◌, arith, eq_iff, ok, false}
use aureum.Prelude.Int.{ℤ, ◌+ℤ◌, IsInt64}
use aureum.Debt.Account.{Debt, apply_payment}
use aureum.Debt.Account.Balance.{IsValid, apply_payment_settles}
use aureum.Debt.Payment.{Payment}
use aureum.Debt.Tables.{Tables, find_debt, update_debt, set_debt}
use aureum.Debt.Tables.Rows.{find_debt-ids, find_debt-update_debt}
use aureum.Debt.Service.{RegisterPaymentRequest, found, payment_with, write_payment, payment_event}
use aureum.Debt.Service.Reads.Races.{no_faults}
use aureum.Debt.Service.Payments.{recorded, recorded-append, set_debt-apply_payment}

-- The tables after the writes of a payment that read the debt d.
abbrev pub paid_tables : ℕ → RegisterPaymentRequest → Payment → Debt → Tables → Tables
paid_tables now req p d t = record t {
  debts = update_debt (apply_payment now req.amount d).0 t.debts;
  payments = t.payments ++ p ∷ [];
  events = t.events ++ payment_event now req p (apply_payment now req.amount d).0 ∷ [];
}

payment_with-writes :
    (now : ℕ) (req : RegisterPaymentRequest) (p : Payment) (d : Debt) (first t : Tables)
    → find_debt req.debt_id req.user_id first.debts ≡ some d
    → (apply_payment now req.amount d).1 ≡ none
    → payment_with no_faults now req p
        (found false (find_debt req.debt_id req.user_id first.debts))
        t
      ≡ ok (paid_tables now req p d t)
unfolding payment_with write_payment found
payment_with-writes now req p d first t e h = ground (arith, e, h)

payment-overwrites :
    (now later : ℕ) (a b : ℤ) (d : Debt)
    → set_debt (apply_payment later b d).0 (apply_payment now a d).0 ≡ (apply_payment later b d).0
unfolding apply_payment
payment-overwrites now later a b d = ground arith

-- Where two payments on one debt both read it before either writes, and each is accepted by itself:
-- both are recorded, and what is left of the debt has gone down by the second one alone.
pub register_payment_races :
    (now later : ℕ) (req req' : RegisterPaymentRequest) (p p' : Payment) (d : Debt) (t : Tables)
    → req'.debt_id ≡ req.debt_id
    → req'.user_id ≡ req.user_id
    → p.debt_id ≡ req.debt_id
    → p.amount ≡ req.amount
    → p'.debt_id ≡ req.debt_id
    → p'.amount ≡ req'.amount
    → IsInt64 req'.amount
    → IsValid d
    → find_debt req.debt_id req.user_id t.debts ≡ some d
    → (apply_payment now req.amount d).1 ≡ none
    → (apply_payment later req'.amount d).1 ≡ none
    → let read = found false (find_debt req.debt_id req.user_id t.debts) in
      let read' = found false (find_debt req'.debt_id req'.user_id t.debts) in
      let t1 = paid_tables now req p d t in
      let t2 = paid_tables later req' p' d t1 in
      let d2 = (apply_payment later req'.amount d).0 in
      (payment_with no_faults now req p read t ≡ ok t1)
      × (payment_with no_faults later req' p' read' t1 ≡ ok t2)
      × (find_debt req.debt_id req.user_id t2.debts ≡ some d2)
      × (d2.remaining_amount +ℤ req'.amount ≡ d.remaining_amount)
      × (recorded req.debt_id t2.payments
          ≡ recorded req.debt_id t.payments +ℤ req.amount +ℤ req'.amount)
register_payment_races now later req req' p p' d t e-id e-user pd pa qd qa ha v f h h' =
    let t1 = paid_tables now req p d t in
    let d1 = (apply_payment now req.amount d).0 in
    let d2 = (apply_payment later req'.amount d).0 in
    let ids = (find_debt-ids req.debt_id req.user_id t.debts f).0 in
    let (same1, id1) = set_debt-apply_payment now req.amount d in
    let (same2, id2) = set_debt-apply_payment later req'.amount d in
    let row1 =
      find_debt-update_debt req.debt_id req.user_id d1 t.debts f (id1 ∙ ids) ∙ ap some same1 in
    let row2 =
      find_debt-update_debt req.debt_id req.user_id d2 t1.debts row1 (id2 ∙ ids)
      ∙ ap some (payment-overwrites now later req.amount req'.amount d) in
    let f' : find_debt req'.debt_id req'.user_id t.debts ≡ some d = rw (e-id, e-user) f in
    let first = payment_with-writes now req p d t t f h in
    let second = payment_with-writes later req' p' d t t1 f' h' in
    let sum1 : recorded req.debt_id t1.payments ≡ recorded req.debt_id t.payments +ℤ req.amount =
      recorded-append req.debt_id t.payments p
      ∙ ground (arith, eq_iff p.debt_id req.debt_id, pd, pa) in
    let sum2 =
      recorded-append req.debt_id t1.payments p'
      ∙ ground (arith, eq_iff p'.debt_id req.debt_id, qd, qa, sum1) in
    (first, second, row2, (apply_payment_settles later req'.amount d ha v h').0, sum2)
