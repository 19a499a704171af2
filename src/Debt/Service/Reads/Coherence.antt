-- ===== src/Debt/Service/Reads/Coherence.antt =====
-- Reads, payments and deletions keep the cache in step with the rows.
use aureum.Prelude.{
  ℕ, String, ◌≡◌, ◌≢◌, ◌⊎◌, inl, inr, refl, ap, sym, subst, ◌∙◌, false, none, some, str_eq,
  if◌then◌else◌, arith, eq_iff, Option-cases, Bool-cases,
}
use aureum.Prelude.Dict.{lookup, put, lookup-put, lookup-remove}
use aureum.Debt.Account.{Debt, apply_payment}
use aureum.Debt.Tables.{find_debt, delete_debt_row}
use aureum.Debt.Tables.Rows.{
  HasUniqueIds, HasUniqueIds-update_debt, HasUniqueIds-delete_debt_row, find_debt-ids,
  find_debt-update_debt_ne, find_debt-delete_debt_row_ne,
}
use aureum.Debt.Service.{
  World, Faults, RegisterPaymentRequest, debt_to_response, found, read, cache_set, cache_delete,
  get_debt, register_payment, forget_debt, delete_transaction, delete_debt,
}
use aureum.Debt.Service.Reads.{Coherent}
use aureum.Debt.Service.Payments.{register_payment-cases, set_debt-apply_payment}

get_debt-cases :
    (faults : Faults) (id user_id : String) (w : World)
    → ((get_debt faults id user_id w).0 ≡ w)
      ⊎ ((d : Debt) × (find_debt id user_id w.tables.debts ≡ some d)
          × ((get_debt faults id user_id w).0
              ≡ record w { cache = put id (debt_to_response d) w.cache }))
unfolding get_debt cache_set found
get_debt-cases faults id user_id w =
    elim (Option-cases (read faults.cache_get (lookup id w.cache))) [
      | inr (r, s) ↦ inl (ground arith)
      | inl n ↦ elim (Option-cases (find_debt id user_id w.tables.debts)) [
        | inl e ↦ inl (ground arith)
        | inr (d, e) ↦ elim (Bool-cases faults.find_debt) [
          | inl b ↦ inl (ground arith)
          | inr b ↦ elim (Bool-cases faults.cache_set) [
            | inl b' ↦ inl (ground arith)
            | inr b' ↦ inr (d, e, ground arith)
          ]
        ]
      ]
    ]

-- A cached debt is still a row's after a write that leaves the rows of the other ids, where the
-- debt of the write was dropped from the cache.
pub Coherent-write :
    (faults : Faults) (key : String) (w w' : World)
    → faults.cache_delete ≡ false
    → w'.cache ≡ cache_delete faults key w.cache
    → ((id u : String) → key ≢ id → find_debt id u w'.tables.debts ≡ find_debt id u w.tables.debts)
    → Coherent w
    → Coherent w'
unfolding cache_delete
Coherent-write faults key w w' f drop same c id r h =
    let at : lookup id w'.cache ≡ (if str_eq key id then none else lookup id w.cache) =
      ap (lookup id) (drop ∙ ground arith) ∙ lookup-remove key id w.cache in
    let (ne, h') : (key ≢ id) × (lookup id w.cache ≡ some r) =
      ((λ e. ground (arith, eq_iff key id, e, at, h)), ground (arith, at, h)) in
    let b = c id r h' in
    record {
      owner = b.owner;
      d = b.d;
      found_row = same id b.owner ne ∙ b.found_row;
      of_row = b.of_row;
    }

get_debt-Coherent :
    (faults : Faults) (id user_id : String) (w : World)
    → Coherent w
    → Coherent (get_debt faults id user_id w).0
get_debt-Coherent faults id user_id w c = elim (get_debt-cases faults id user_id w) [
  | inl e ↦ subst Coherent (sym e) c
  | inr (d, e, e') ↦ subst Coherent (sym e') (λ k r h.
      let split = lookup-put id k (debt_to_response d) w.cache in
      elim (Bool-cases (str_eq id k)) [
        | inl b ↦ record {
          owner = user_id;
          d = d;
          found_row = rw (sym ((eq_iff id k).0 b)) e;
          of_row = ground (arith, split, h, b);
        }
        | inr b ↦ c k r (ground (arith, split, h, b))
      ])
]

register_payment-Coherent :
    (faults : Faults) (now : ℕ) (id : String) (req : RegisterPaymentRequest) (w : World)
    → faults.cache_delete ≡ false
    → Coherent w
    → Coherent (register_payment faults now id req w).0
register_payment-Coherent faults now id req w f c =
    elim (register_payment-cases faults now id req w) [
      | inl e ↦ subst Coherent (sym e) c
      | inr (x, drop) ↦
          let d' = (apply_payment now req.amount x.d).0 in
          let id' : d'.id ≡ req.debt_id =
            (set_debt-apply_payment now req.amount x.d).1
            ∙ (find_debt-ids req.debt_id req.user_id w.tables.debts x.found_debt).0 in
          Coherent-write faults req.debt_id w (register_payment faults now id req w).0 f drop
            (λ k u ne.
              rw (x.rows) (find_debt-update_debt_ne k u d' w.tables.debts (λ e. ne (sym id' ∙ e))))
            c
    ]

delete_debt-rows :
    (faults : Faults) (now : ℕ) (id user_id : String) (w : World)
    → let w' = (delete_debt faults now id user_id w).0 in
      (w'.cache ≡ cache_delete faults id w.cache)
      × ((w'.tables.debts ≡ w.tables.debts)
          ⊎ (w'.tables.debts ≡ delete_debt_row now id user_id w.tables.debts))
unfolding delete_debt delete_transaction forget_debt
delete_debt-rows faults now id user_id w = (
  ground arith,
  elim (Option-cases (delete_debt faults now id user_id w).1) [
    | inl e ↦ inr (ground arith)
    | inr (x, e) ↦ inl (ground arith)
  ],
)

delete_debt-Coherent :
    (faults : Faults) (now : ℕ) (id user_id : String) (w : World)
    → faults.cache_delete ≡ false
    → Coherent w
    → Coherent (delete_debt faults now id user_id w).0
delete_debt-Coherent faults now id user_id w f c =
    let (drop, rows) = delete_debt-rows faults now id user_id w in
    Coherent-write faults id w (delete_debt faults now id user_id w).0 f drop
      (λ k u ne. elim rows [
        | inl e ↦ rw e refl
        | inr e ↦ rw e (find_debt-delete_debt_row_ne now k id user_id u w.tables.debts ne)
      ])
      c

-- Ids name one row, and the cache is in step with the rows.
abbrev pub InStep : World → Type 0
InStep w = HasUniqueIds w.tables.debts × Coherent w

pub read_debt-InStep :
    (faults : Faults) (id user_id : String) (w : World)
    → InStep w
    → InStep (get_debt faults id user_id w).0
read_debt-InStep faults id user_id w (u, c) = (
  elim (get_debt-cases faults id user_id w) [ inl e ↦ rw e u | inr (d, e, e') ↦ rw e' u ],
  get_debt-Coherent faults id user_id w c,
)

pub pay-InStep :
    (faults : Faults) (now : ℕ) (id : String) (req : RegisterPaymentRequest) (w : World)
    → faults.cache_delete ≡ false
    → InStep w
    → InStep (register_payment faults now id req w).0
pay-InStep faults now id req w f (u, c) = (
  elim (register_payment-cases faults now id req w) [
    | inl e ↦ rw e u
    | inr (x, _) ↦
        rw x.rows (HasUniqueIds-update_debt (apply_payment now req.amount x.d).0 w.tables.debts u)
  ],
  register_payment-Coherent faults now id req w f c,
)

pub delete-InStep :
    (faults : Faults) (now : ℕ) (id user_id : String) (w : World)
    → faults.cache_delete ≡ false
    → InStep w
    → InStep (delete_debt faults now id user_id w).0
delete-InStep faults now id user_id w f (u, c) = (
  elim ((delete_debt-rows faults now id user_id w).1) [
    | inl e ↦ rw e u
    | inr e ↦ rw e (HasUniqueIds-delete_debt_row now id user_id w.tables.debts u)
  ],
  delete_debt-Coherent faults now id user_id w f c,
)
