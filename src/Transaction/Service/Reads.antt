-- ===== src/Transaction/Service/Reads.antt =====
-- What the three kinds of transaction keep over any requests.
use aureum.Prelude.{
  ℕ, String, ◌≡◌, inl, inr, sym, ap, ◌∙◌, true, false, none, some, List, [], ◌∷◌, ◌++◌, arith,
  eq_iff, is_empty, Result, ok, err, Option-cases,
}
use aureum.Prelude.Dict.{lookup}
use aureum.Endpoint.Stores.{Faults, key_store, replayed, read}
use aureum.Endpoint.Keys.{has_no_colon}
use aureum.Transaction.Service.Texts.Keys.{cache_key-ids, cache_key_for_user-ids}
use aureum.Endpoint.{Kind, State, find_row, created_event, create, insert}
use aureum.Endpoint.Steps.{write-cases}
use aureum.Endpoint.Runs.{
  Request, serve_all, AllOrderly, IsWell, serve_all-IsWell, read_row, get_refines, get_isolates,
}
use aureum.Transaction.Service.Incomes.{income_kind, get_income}
use aureum.Transaction.Service.Incomes.Laws.{
  IsProper, IsColonFree, income-IsTable, income-IsNamed, income-IsSound,
}
use aureum.Transaction.FixedExpense.{FixedExpense}
use aureum.Transaction.FixedExpense.Updates.{IsValid}
use aureum.Transaction.Service.FixedExpenses.{fixed_expense_kind, get_fixed_expense}
use aureum.Transaction.Service.FixedExpenses.Laws.{
  fixed_expense-IsTable, fixed_expense-IsNamed, fixed_expense-IsSound,
}

-- After any requests for incomes by users whose ids have no colon, whichever of their calls fail but
-- the deletions in the cache, and with new ids for new incomes: every such user reads of an id what
-- the live rows of the user say, and nothing of the incomes of others, whether the answer is cached
-- or not, if the read of the rows does not fail.
pub get_income-serve_all :
    (qs : List (Request income_kind)) (faults : Faults) (id u : String) (s : State income_kind)
    → AllOrderly income_kind IsColonFree qs s
    → IsWell income_kind IsProper s
    → has_no_colon u ≡ true
    → faults.find ≡ false
    → (get_income faults id u (serve_all income_kind qs s)).1
      ≡ read_row income_kind id u (serve_all income_kind qs s)
unfolding get_income
get_income-serve_all qs faults id u s o h c f =
    get_isolates income_kind IsProper faults id u (serve_all income_kind qs s)
      (λ i v x p owner same.
        cache_key_for_user-ids "income" i v id u (ap has_no_colon (sym owner) ∙ p.1) c same)
      (serve_all-IsWell income_kind IsProper IsColonFree income-IsTable income-IsNamed
        income-IsSound qs s o h)
      f

-- After any requests for fixed expenses, under the same conditions: a user who has the expense reads
-- what its live row says.
pub get_fixed_expense-serve_all :
    (qs : List (Request fixed_expense_kind)) (faults : Faults) (id u : String)
    (s : State fixed_expense_kind) {d : FixedExpense}
    → AllOrderly fixed_expense_kind (λ req. Unit) qs s
    → IsWell fixed_expense_kind IsValid s
    → faults.find ≡ false
    → find_row fixed_expense_kind id u (serve_all fixed_expense_kind qs s).rows ≡ some d
    → (get_fixed_expense faults id u (serve_all fixed_expense_kind qs s)).1
      ≡ read_row fixed_expense_kind id u (serve_all fixed_expense_kind qs s)
unfolding get_fixed_expense
get_fixed_expense-serve_all qs faults id u s {d} o h f e =
    get_refines fixed_expense_kind IsValid faults id u (serve_all fixed_expense_kind qs s)
      (λ i v x p owner same. cache_key-ids "fixed_expense" i id same)
      (serve_all-IsWell fixed_expense_kind IsValid (λ req. Unit) fixed_expense-IsTable
        fixed_expense-IsNamed fixed_expense-IsSound qs s o h)
      f e

module _ (k : Kind) where
  open k use {Row, Response, CreateRequest, create_key, build, pack, unpack, respond}

  -- A key that is stored is there.
  lookup-key_store :
      (faults : Faults) (key : String) (v : k.Stored) (keys : List (String × k.Stored))
      → is_empty key ≡ false
      → faults.key_store ≡ false
      → lookup key keys ≡ none
      → lookup key (key_store faults key v keys) ≡ some v
  unfolding key_store lookup
  lookup-key_store faults key v keys n f e = ground (arith, eq_iff key key)

  insert-stored :
      (faults : Faults) (now : ℕ) (key : String) (b : Result k.Err Row) (s : State k) {r : Response}
      → is_empty key ≡ false
      → faults.key_store ≡ false
      → lookup key s.keys ≡ none
      → (insert k faults now key b s).1 ≡ ok r
      → lookup key (insert k faults now key b s).0.keys ≡ some (pack r)
  unfolding insert
  insert-stored faults now key (err e) s n f none_yet h = cc h
  insert-stored faults now key (ok d) s {r} n f none_yet h =
      elim (write-cases k faults (s.rows ++ d ∷ []) (created_event k now d) s) [
        | inl (e, w) ↦ ground arith
        | inr w ↦ ground (arith, lookup-key_store faults key (pack (respond d)) s.keys n f none_yet)
      ]

  -- A creation that was answered, repeated with its key by anyone and with any id, gives the same
  -- response and changes nothing, where the store of the keys works.
  pub create_once :
      (packed : (r : Response) → unpack (pack r) ≡ r) (faults faults' : Faults) (now now' : ℕ)
      (id id' : String) (req req' : CreateRequest) (s : State k) {r : Response}
      → is_empty (create_key req) ≡ false
      → create_key req' ≡ create_key req
      → faults.key_get ≡ false
      → faults.key_store ≡ false
      → faults'.key_get ≡ false
      → (create k faults now id req s).1 ≡ ok r
      → let s' = (create k faults now id req s).0 in create k faults' now' id' req' s' ≡ (s', ok r)
  unfolding create replayed read
  create_once packed faults faults' now now' id id' req req' s {r} n same g f g' h =
      elim (Option-cases (lookup (create_key req) s.keys)) [
        | inr (v, e) ↦ ground (arith, n, g, e, h, g', same)
        | inl e ↦
            let stored =
              insert-stored faults now (create_key req) (build now id req) s {r = r} n f e in
            ground (arith, n, g, e, h, g', same, stored, packed r)
      ]
