-- ===== src/Debt/Service/Reads/Races.antt =====
-- Reads that return what the rows do not hold, or what is not the user's.
use aureum.Prelude.{
  ℕ, String, ◌≡◌, ap, refl, ◌∙◌, false, none, some, [], ◌∷◌, ◌++◌, arith, eq_iff, ok,
}
use aureum.Prelude.Dict.{lookup, put, remove, lookup-put_same, lookup-remove}
use aureum.Debt.Account.{Debt}
use aureum.Debt.Tables.{find_debt, delete_debt_row, debt_deleted}
use aureum.Debt.Tables.Rows.{HasUniqueIds, find_debt-delete_debt_row}
use aureum.Debt.Service.{
  World, Faults, DebtResponse, debt_to_response, found, read, cache_set, cache_delete, get_debt,
  forget_debt, delete_transaction,
}

-- No call fails.
abbrev pub no_faults : Faults
no_faults = record {
  key_get = false;
  key_store = false;
  cache_get = false;
  cache_set = false;
  cache_delete = false;
  find_debt = false;
  write_payment = false;
  write_debt = false;
  write_schedule = false;
  save_event = false;
  commit = false;
}

-- A read of a debt that was not cached puts it into the cache.
get_debt-caches :
    (id user_id : String) (w : World) {d : Debt}
    → lookup id w.cache ≡ none
    → find_debt id user_id w.tables.debts ≡ some d
    → get_debt no_faults id user_id w
      ≡ (record w { cache = put id (debt_to_response d) w.cache }, ok (debt_to_response d))
unfolding get_debt read found cache_set
get_debt-caches id user_id w n e = ground arith

-- A cached debt is what any user reads.
get_debt-hits :
    (id user_id : String) (w : World) {r : DebtResponse}
    → lookup id w.cache ≡ some r
    → get_debt no_faults id user_id w ≡ (w, ok r)
unfolding get_debt read
get_debt-hits id user_id w h = ground arith

-- Once a user has read a debt, every user who asks for its id gets it, for as long as it is cached:
-- the key of the cache does not name the user.
pub get_debt_leaks :
    (id owner stranger : String) (w : World) {d : Debt}
    → lookup id w.cache ≡ none
    → find_debt id owner w.tables.debts ≡ some d
    → let w' = (get_debt no_faults id owner w).0 in
      (get_debt no_faults id stranger w').1 ≡ ok (debt_to_response d)
get_debt_leaks id owner stranger w {d} n e =
    let w' = record w { cache = put id (debt_to_response d) w.cache } in
    rw (get_debt-caches id owner w n e) (
      ap (λ r. r.1)
        (get_debt-hits id stranger w' (lookup-put_same id (debt_to_response d) w.cache)))

-- Where the owner reads a debt between the two steps of its deletion, which drop the debt from the
-- cache and then delete the row, the row is deleted and any user who asks for the
-- id still gets the debt.
pub delete_debt_races :
    (now : ℕ) (id owner v : String) (w : World) {d : Debt}
    → HasUniqueIds w.tables.debts
    → find_debt id owner w.tables.debts ≡ some d
    → let between = (get_debt no_faults id owner (forget_debt no_faults id w)).0 in
      let (w', e) = delete_transaction no_faults now id owner between in
      (e ≡ none)
      × (find_debt id v w'.tables.debts ≡ none)
      × ((get_debt no_faults id v w').1 ≡ ok (debt_to_response d))
unfolding forget_debt cache_delete delete_transaction
delete_debt_races now id owner v w {d} u e =
    let gone : lookup id (remove id w.cache) ≡ none =
      lookup-remove id id w.cache ∙ ground (arith, eq_iff id id) in
    let forgotten : World = record w { cache = remove id w.cache } in
    let cached = put id (debt_to_response d) (remove id w.cache) in
    let after : World = record w {
      cache = cached;
      tables = record (w.tables) {
        debts = delete_debt_row now id owner w.tables.debts;
        events =
            w.tables.events
            ++ debt_deleted record { entity_id = id; user_id = owner; timestamp = now } ∷ [];
      };
    } in
    rw (get_debt-caches id owner forgotten gone e) (
      refl,
      find_debt-delete_debt_row now id owner v w.tables.debts u e,
      ap (λ r. r.1)
          (get_debt-hits id v after (lookup-put_same id (debt_to_response d) (remove id w.cache))),
    )
