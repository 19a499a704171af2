-- ===== src/Debt/Service/Changes/Balances.antt =====
-- A new debt, and the payments that follow.
use aureum.Prelude.{
  ℕ, String, ◌≡◌, inl, inr, refl, sym, subst, ◌∙◌, none, List, [], ◌∷◌, ◌++◌, arith, ok,
  Result-cases,
}
use aureum.Prelude.Int.{pos, IsInt64, +ℤ-zero}
use aureum.Debt.Account.{Debt, CreateDebtInput, new_debt}
use aureum.Debt.Account.Balance.{IsValid, new_debt-IsValid, new_debt-fields}
use aureum.Debt.Tables.{Tables}
use aureum.Debt.Tables.Rows.{IsFresh, HasUniqueIds, HasUniqueIds-append, find_debt-append}
use aureum.Debt.Service.{World, Faults, DebtResponse, replayed}
use aureum.Debt.Service.Payments.{recorded}
use aureum.Debt.Service.Payments.Ledger.{
  Ledger, Call, AllInt64, register_payments, register_payments_balance,
}
use aureum.Debt.Service.Changes.{
  Setup, CreateDebtRequest, write_schedule, save_amortization, finish, create_transaction, debt_of,
  open_debt, create_debt, to_domain_debt_type, to_domain_debt_status, or_active,
}

-- Schedules leave the rows of debts and payments.
abbrev pub SameRows : Tables → Tables → Type 0
SameRows t t' = (t'.debts ≡ t.debts) × (t'.payments ≡ t.payments)

pub save_amortization-SameRows :
    (u : Setup) (faults : Faults) (d : Debt) (t : Tables) {t' : Tables}
    → save_amortization u faults d t ≡ ok t'
    → SameRows t t'
unfolding save_amortization write_schedule
save_amortization-SameRows u faults d t h = (ground (arith, h), ground (arith, h))

pub create_transaction-rows :
    (u : Setup) (faults : Faults) (now : ℕ) (d : Debt) (t : Tables) {t' : Tables}
    → create_transaction u faults now d t ≡ ok t'
    → (t'.debts ≡ t.debts ++ d ∷ []) × (t'.payments ≡ t.payments)
unfolding create_transaction finish
create_transaction-rows u faults now d t {t'} h =
    let inserted : Tables = record t { debts = t.debts ++ d ∷ [] } in
    elim (Result-cases (save_amortization u faults d inserted)) [
      | inr (e, n) ↦ absurd (ground (arith, h, n))
      | inl (s, n) ↦
          let (a, b) = save_amortization-SameRows u faults d inserted n in
          (ground (arith, h, n, a), ground (arith, h, n, b))
    ]

pub debt_of-id :
    (now : ℕ) (id : String) (input : CreateDebtInput) {d : Debt}
    → debt_of now id input ≡ ok d
    → d.id ≡ id
unfolding debt_of
debt_of-id now id input h = ground (arith, h)

-- A new debt has the id that was drawn, is its user's, is valid and has all of its total left.
debt_of-valid :
    (now : ℕ) (id : String) (input : CreateDebtInput) {d : Debt}
    → IsInt64 input.total_amount
    → debt_of now id input ≡ ok d
    → (d.id ≡ id)
      × (d.user_id ≡ input.user_id)
      × (d.deleted_at ≡ none)
      × IsValid d
      × (d.remaining_amount ≡ input.total_amount)
unfolding debt_of
debt_of-valid now id input {d} ha h = elim (Result-cases (to_domain_debt_type input.debt_type)) [
  | inr (e, n) ↦ absurd (ground (arith, h, n))
  | inl (type, n) ↦ elim (Result-cases (to_domain_debt_status input.status)) [
    | inr (e, m) ↦ absurd (ground (arith, h, n, m))
    | inl (status, m) ↦
        let asked = record input { debt_type = type; status = or_active status } in
        elim (Result-cases (new_debt now asked)) [
          | inr (e, o) ↦ absurd (ground (arith, h, n, m, o))
          | inl (new, o) ↦
              let (v, all, _) = new_debt-IsValid now asked ha o in
              let (user, live, total) = new_debt-fields now asked o in
              let made : record new { id = id } ≡ d = ground (arith, h, n, m, o) in
              subst
                (λ x.
                  (x.id ≡ id)
                  × (x.user_id ≡ input.user_id)
                  × (x.deleted_at ≡ none)
                  × IsValid x
                  × (x.remaining_amount ≡ input.total_amount))
                made
                (
                  refl,
                  user,
                  live,
                  record {
                    remaining_range = v.remaining_range;
                    remaining_nonneg = v.remaining_nonneg;
                  },
                  all ∙ total,
                )
        ]
  ]
]

open_debt-rows :
    (u : Setup) (faults : Faults) (now : ℕ) (id : String) (req : CreateDebtRequest) (w : World)
    {r : DebtResponse}
    → (open_debt u faults now id req w).1 ≡ ok r
    → (d : Debt) × (debt_of now id req.input ≡ ok d)
      × ((open_debt u faults now id req w).0.tables.debts ≡ w.tables.debts ++ d ∷ [])
      × ((open_debt u faults now id req w).0.tables.payments ≡ w.tables.payments)
unfolding open_debt
open_debt-rows u faults now id req w h = elim (Result-cases (debt_of now id req.input)) [
  | inr (e, n) ↦ absurd (ground (arith, h, n))
  | inl (d, n) ↦ elim (Result-cases (create_transaction u faults now d w.tables)) [
    | inr (e, m) ↦ absurd (ground (arith, h, n, m))
    | inl (t, m) ↦
        let (a, b) = create_transaction-rows u faults now d w.tables m in
        (d, n, ground (arith, n, m, a), ground (arith, n, m, b))
  ]
]

-- A debt that CreateDebt has accepted, with an id that no row and no payment has: after any calls of
-- RegisterPayment, by any users for any debts and with any of their reads and writes failing, its
-- user has it, valid, and what is left of it and what was recorded for it add up to the total that
-- was asked for.
pub create_debt_balance :
    (u : Setup) (faults : Faults) (now : ℕ) (id : String) (req : CreateDebtRequest) (cs : List Call)
    (w : World) {r : DebtResponse}
    → replayed faults req.idempotency_key w ≡ none
    → IsInt64 req.input.total_amount
    → HasUniqueIds w.tables.debts
    → IsFresh id w.tables.debts
    → recorded id w.tables.payments ≡ pos 0
    → AllInt64 cs
    → (create_debt u faults now id req w).1 ≡ ok r
    → let w' = (create_debt u faults now id req w).0 in
      Ledger id req.input.user_id req.input.total_amount (register_payments cs w').tables
unfolding create_debt
create_debt_balance u faults now id req cs w {r} n ha unique fresh none_paid hc h =
    let w' = (create_debt u faults now id req w).0 in
    let same : w' ≡ (open_debt u faults now id req w).0 = ground (arith, n) in
    let opened : (open_debt u faults now id req w).1 ≡ ok r = ground (arith, n, h) in
    let (d, made, rows, payments) = open_debt-rows u faults now id req w opened in
    let (is_id, user, live, valid, all) = debt_of-valid now id req.input ha made in
    let start : Ledger id req.input.user_id req.input.total_amount w'.tables = record {
      d = d;
      found_debt =
          rw (same, rows)
            (find_debt-append id req.input.user_id w.tables.debts d fresh is_id user live);
      valid = valid;
      balance = rw (same, payments, none_paid) (+ℤ-zero d.remaining_amount ∙ all);
    } in
    let unique' : HasUniqueIds w'.tables.debts =
      rw (same, rows)
        (HasUniqueIds-append w.tables.debts d unique
          (subst (λ i. IsFresh i w.tables.debts) (sym is_id) fresh)) in
    register_payments_balance cs id req.input.user_id req.input.total_amount w' hc unique' start
