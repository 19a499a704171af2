-- ===== src/Report/Statements/Dates.antt =====
-- What the key of a cached statement leaves out.
use aureum.Prelude.{
  String, ◌≡◌, inl, inr, false, List, arith, Result, ok, Option-cases, Result-cases,
}
use aureum.Prelude.Dict.{lookup, lookup-put_same}
use aureum.Prelude.Int.{ℤ}
use aureum.Report.Errors.{Err}
use aureum.Report.Monthly.{MonthlyRepository}
use aureum.Report.Categories.{CategorySummary}
use aureum.Report.Statements.{
  World, Faults, IncomeStatementRequest, IncomeStatement, ScanYear, statement_key,
  compute_statement, get_income_statement,
}

module _ {S : Type 0} (repo : MonthlyRepository S)
    (find_categories : String → ℤ → ℤ → S → Result Err (List CategorySummary))
    (scan : ScanYear) where
  -- Once a statement has been answered, every request of the user with the same grouping gets the same
  -- statement, whatever its dates are, where the calls of the cache do not fail.
  pub get_income_statement_ignores_dates :
      (faults : Faults) (req req' : IncomeStatementRequest) (w : World repo find_categories scan)
      {r : IncomeStatement}
      → faults.cache_get ≡ false
      → faults.cache_set ≡ false
      → req'.user_id ≡ req.user_id
      → req'.group_by ≡ req.group_by
      → (get_income_statement repo find_categories scan faults req w).1 ≡ ok r
      → (get_income_statement repo find_categories scan faults req'
          (get_income_statement repo find_categories scan faults req w).0).1
        ≡ ok r
  unfolding get_income_statement statement_key
  get_income_statement_ignores_dates faults req req' w {r} g f user group h =
      let key = statement_key repo find_categories scan req in
      elim (Option-cases (lookup key w.statements)) [
        | inr (c, e) ↦ ground (arith, g, f, user, group, h, e)
        | inl e ↦ elim (Result-cases (compute_statement repo find_categories scan req w.tables)) [
          | inr (x, n) ↦ ground (arith, g, f, h, e, n)
          | inl (x, n) ↦
              ground (arith, g, f, user, group, h, e, n, lookup-put_same key x w.statements)
        ]
      ]
