-- ===== src/Debt/Service/Reads.antt =====
-- What reads through the cache return.
pub mod Coherence
pub mod Races
use aureum.Prelude.{
  ℕ, String, ◌≡◌, ◌≢◌, ◌⊎◌, inl, inr, refl, ap, sym, subst, ◌∙◌, Bool, true, false, Option, none,
  some, List, [], ◌∷◌, str_eq, if◌then◌else◌, arith, eq_iff, ok, err, Result, Option-cases,
  Bool-cases,
}
use aureum.Prelude.Dict.{lookup, put, lookup-put, lookup-remove}
use aureum.Debt.Errors.{Err, not_found, database}
use aureum.Debt.Account.{Debt, apply_payment}
use aureum.Debt.Tables.{find_debt, delete_debt_row}
use aureum.Debt.Tables.Rows.{
  HasUniqueIds, HasUniqueIds-update_debt, HasUniqueIds-delete_debt_row, find_debt-ids,
  find_debt_unique, find_debt-update_debt_ne, find_debt-delete_debt_row_ne,
}
use aureum.Debt.Service.{
  World, Faults, DebtResponse, RegisterPaymentRequest, debt_to_response, found, read, cache_set,
  cache_delete, get_debt, register_payment, forget_debt, delete_transaction, delete_debt,
}
use aureum.Debt.Service.Payments.{Written, register_payment-cases, set_debt-apply_payment}

-- A response that a live row of the id has.
pub record Backed (id : String) (r : DebtResponse) (rows : List Debt) : Type 0 where
  pub owner : String
  pub d : Debt
  pub found_row : find_debt id owner rows ≡ some d
  pub of_row : r ≡ debt_to_response d

-- Each debt in the cache is the one of a row.
abbrev pub Coherent : World → Type 0
Coherent w =
    (id : String) (r : DebtResponse) → lookup id w.cache ≡ some r → Backed id r w.tables.debts

-- The reference: a read of the rows alone.
unfoldable pub read_row : String → String → World → Result Err DebtResponse
read_row id user_id w = elim (find_debt id user_id w.tables.debts) [
  | none ↦ err not_found
  | some d ↦ ok (debt_to_response d)
]

-- With a cache in step with the rows and ids that name one row, a user who has the debt gets what a
-- read of the rows alone returns, whether it is cached or not and whichever calls of the cache
-- fail, if the read of the rows does not fail.
pub get_debt_refines :
    (faults : Faults) (id user_id : String) (w : World) {d : Debt}
    → faults.find_debt ≡ false
    → HasUniqueIds w.tables.debts
    → Coherent w
    → find_debt id user_id w.tables.debts ≡ some d
    → (get_debt faults id user_id w).1 ≡ read_row id user_id w
unfolding get_debt read read_row found
get_debt_refines faults id user_id w {d} f u c e = elim (Option-cases (lookup id w.cache)) [
  | inl n ↦ ground arith
  | inr (r, s) ↦
      let b = c id r s in
      let same : b.d ≡ d = find_debt_unique id b.owner user_id w.tables.debts u b.found_row e in
      ground (arith, b.of_row)
]
