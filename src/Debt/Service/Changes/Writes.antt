-- ===== src/Debt/Service/Changes/Writes.antt =====
-- What a creation and an update write.
use aureum.Prelude.{
  ℕ, String, ◌≡◌, ◌⊎◌, inl, inr, ap, sym, ◌∙◌, some, [], ◌∷◌, ◌++◌, arith, ok, Result-cases,
  Option-cases, Bool-cases,
}
use aureum.Debt.Account.{Debt, UpdateDebtInput}
use aureum.Debt.Account.Updates.{apply_update}
use aureum.Debt.Account.Updates.Kept.{apply_update-HasId}
use aureum.Debt.Tables.{Tables, find_debt, update_debt}
use aureum.Debt.Tables.Rows.{find_debt-ids}
use aureum.Debt.Service.{World, Faults, replayed, found, cache_delete}
use aureum.Debt.Service.Changes.{
  Setup, CreateDebtRequest, UpdateDebtRequest, finish, save_amortization, renew_amortization,
  create_transaction, update_transaction, debt_of, open_debt, create_debt, input_of, changed,
  change_debt, update_debt_request,
}
use aureum.Debt.Service.Changes.Balances.{
  save_amortization-SameRows, create_transaction-rows, debt_of-id,
}

pub record Created (id : String) (t t' : Tables) : Type 0 where
  pub d : Debt
  pub is_id : d.id ≡ id
  pub rows : t'.debts ≡ t.debts ++ d ∷ []

pub create_debt-cases :
    (u : Setup) (faults : Faults) (now : ℕ) (id : String) (req : CreateDebtRequest) (w : World)
    → let w' = (create_debt u faults now id req w).0 in
      (w' ≡ w) ⊎ (Created id w.tables w'.tables × (w'.cache ≡ w.cache))
unfolding create_debt open_debt
create_debt-cases u faults now id req w =
    elim (Option-cases (replayed faults req.idempotency_key w)) [
      | inr (v, e) ↦ inl (ground (arith, e))
      | inl e ↦ elim (Result-cases (debt_of now id req.input)) [
        | inr (x, n) ↦ inl (ground (arith, e, n))
        | inl (d, n) ↦ elim (Result-cases (create_transaction u faults now d w.tables)) [
          | inr (x, m) ↦ inl (ground (arith, e, n, m))
          | inl (t, m) ↦
              let (a, _) = create_transaction-rows u faults now d w.tables m in
              inr (
                record {
                  d = d;
                  is_id = debt_of-id now id req.input n;
                  rows = ground (arith, e, n, m, a);
                },
                ground (arith, e, n, m),
              )
        ]
      ]
    ]

pub record Updated (id user_id : String) (t t' : Tables) : Type 0 where
  pub d : Debt
  pub d' : Debt
  pub found_debt : find_debt id user_id t.debts ≡ some d
  pub is_id : d'.id ≡ id
  pub rows : t'.debts ≡ update_debt d' t.debts

changed-id :
    (now : ℕ) (i : UpdateDebtInput) (d : Debt) (k : String) {d' : Debt}
    → d.id ≡ k
    → changed now i d ≡ ok d'
    → d'.id ≡ k
unfolding changed
changed-id now i d k {d'} e h = elim (Result-cases (input_of i)) [
  | inr (x, n) ↦ absurd (ground (arith, h, n))
  | inl (i', n) ↦
      let kept = apply_update-HasId k now i' d e in
      elim (Option-cases (apply_update now i' d).1) [
        | inl m ↦
            let same : (apply_update now i' d).0 ≡ d' = ground (arith, h, n, m) in
            ap (λ (x : Debt). x.id) (sym same) ∙ kept
        | inr (x, m) ↦ absurd (ground (arith, h, n, m))
      ]
]

renew_amortization-debts :
    (u : Setup) (faults : Faults) (d : Debt) (t : Tables) {t' : Tables}
    → renew_amortization u faults d t ≡ ok t'
    → t'.debts ≡ t.debts
unfolding renew_amortization
renew_amortization-debts u faults d t {t'} h =
    elim (Result-cases (save_amortization u faults d t)) [
      | inr (e, n) ↦ ground (arith, h, n)
      | inl (s, n) ↦
          let (a, _) = save_amortization-SameRows u faults d t n in ground (arith, h, n, a)
    ]

update_transaction-debts :
    (u : Setup) (faults : Faults) (now : ℕ) (d : Debt) (t : Tables) {t' : Tables}
    → update_transaction u faults now d t ≡ ok t'
    → t'.debts ≡ update_debt d t.debts
unfolding update_transaction finish
update_transaction-debts u faults now d t {t'} h =
    let written : Tables = record t { debts = update_debt d t.debts } in
    elim (Result-cases (renew_amortization u faults d written)) [
      | inr (e, n) ↦ absurd (ground (arith, h, n))
      | inl (s, n) ↦
          let a = renew_amortization-debts u faults d written n in ground (arith, h, n, a)
    ]

pub update_debt_request-cases :
    (u : Setup) (faults : Faults) (now : ℕ) (req : UpdateDebtRequest) (w : World)
    → let w' = (update_debt_request u faults now req w).0 in
      (w' ≡ w)
      ⊎ (Updated req.input.id req.input.user_id w.tables w'.tables
          × (w'.cache ≡ cache_delete faults req.input.id w.cache))
unfolding update_debt_request change_debt found
update_debt_request-cases u faults now req w =
    elim (Option-cases (replayed faults req.idempotency_key w)) [
      | inr (v, e) ↦ inl (ground (arith, e))
      | inl e ↦ elim (Option-cases (find_debt req.input.id req.input.user_id w.tables.debts)) [
        | inl f ↦ inl (ground (arith, e, f))
        | inr (d, f) ↦ elim (Result-cases (changed now req.input d)) [
          | inr (x, n) ↦ inl (ground (arith, e, f, n))
          | inl (d', n) ↦ elim (Result-cases (update_transaction u faults now d' w.tables)) [
            | inr (x, m) ↦ inl (ground (arith, e, f, n, m))
            | inl (t, m) ↦ elim (Bool-cases faults.find_debt) [
              | inl b ↦ inl (ground (arith, e, f, b))
              | inr b ↦
                  let rows = update_transaction-debts u faults now d' w.tables m in
                  let ids = find_debt-ids req.input.id req.input.user_id w.tables.debts f in
                  inr (
                    record {
                      d = d;
                      d' = d';
                      found_debt = f;
                      is_id = changed-id now req.input d req.input.id ids.0 n;
                      rows = ground (arith, e, f, n, m, b, rows);
                    },
                    ground (arith, e, f, n, m, b),
                  )
            ]
          ]
        ]
      ]
    ]
