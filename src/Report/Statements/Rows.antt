-- ===== src/Report/Statements/Rows.antt =====
-- Income statements over the queries of internal/infrastructure/persistence as they are.
use aureum.Prelude.{
  ℕ, zero, suc, ◌+◌, ◌/◌, ◌%◌, ◌<◌, String, ◌≡◌, ◌≢◌, ◌⊎◌, refl, subst, inl, inr, false, Option,
  none, List, [], ◌∷◌, ◌++◌, arith, Result, ok, Option-cases, Result-cases, Bool-cases,
}
use aureum.Prelude.Int.{ℤ, pos, ◌+ℤ◌, add64}
use aureum.Report.Errors.{Err}
use aureum.Report.Monthly.{MonthlySummary, find_row, is_no_data, monthly_summary_repo}
use aureum.Report.Categories.{CategorySummary}
use aureum.Report.Statements.{
  IncomePeriod, IncomeStatementRequest, IncomeStatement, money_from_cents, amounts_of, or_none,
  ScanYear, parse_year, last_year, month_count, statement_loop, compute_statement,
}

zero_or_next : (i : ℕ) → (i ≡ 0) ⊎ ((j : ℕ) × (i ≡ j + 1))
zero_or_next zero = inl refl
zero_or_next (suc j) = inr (j, omega arith)

module _
    (find_categories : String → ℤ → ℤ → List MonthlySummary → Result Err (List CategorySummary))
    (scan : ScanYear) where
  statement_loop_complete :
      (rows : List MonthlySummary) (user_id : String) (year : ℤ) (left m : ℕ)
      (ps : List IncomePeriod) (t : ℤ) {r : List IncomePeriod × ℤ} (i : ℕ)
      → statement_loop
          (monthly_summary_repo false false)
          find_categories
          scan
          rows
          user_id
          year
          left
          m
          ps
          t
        ≡ ok r
      → i < left
      → find_row user_id (year +ℤ pos ((m + i) / 12)) (pos ((m + i) % 12 + 1)) rows ≢ none
  unfolding statement_loop monthly_summary_repo is_no_data
  statement_loop_complete rows user_id year zero m ps t i h lt e = omega (arith, lt)
  statement_loop_complete rows user_id year (suc left) m ps t {r} i h lt e =
      let find : ℕ → Option MonthlySummary =
        λ n. find_row user_id (year +ℤ pos (n / 12)) (pos (n % 12 + 1)) rows in
      elim (Option-cases (find m)) [
        | inl n ↦ ground (arith, h, n)
        | inr (x, f) ↦ elim (zero_or_next i) [
          | inl z ↦
              let here : find m ≡ none = subst (λ n. find n ≡ none) (omega (arith, z)) e in
              ground (arith, here, f)
          | inr (j, z) ↦
              let later : find (m + 1 + j) ≡ none =
                subst (λ n. find n ≡ none) (omega (arith, z)) e in
              let p : IncomePeriod = record {
                year = year +ℤ pos (m / 12);
                month = m % 12 + 1;
                categories = amounts_of "income" (
                    or_none
                      (find_categories user_id (year +ℤ pos (m / 12)) (pos (m % 12 + 1)) rows));
                period_total = money_from_cents x.total_income;
              } in
              let h' : statement_loop (monthly_summary_repo false false) find_categories scan rows
                    user_id year left (m + 1) (ps ++ p ∷ []) (add64 t x.total_income)
                  ≡ ok r =
                ground (arith, h, f) in
              statement_loop_complete rows user_id year left (m + 1) (ps ++ p ∷ [])
                (add64 t x.total_income) j h' (omega (arith, lt, z)) later
        ]
      ]

  -- Over the queries as they are, an income statement is answered only if each month of its years has a
  -- summary: a month without one is an error of the driver, which is not `ErrNoData`.
  pub compute_statement_complete :
      (req : IncomeStatementRequest) (rows : List MonthlySummary) {r : IncomeStatement} (i : ℕ)
      → compute_statement (monthly_summary_repo false false) find_categories scan req rows ≡ ok r
      → let year = (parse_year scan req.date_from).0 in
        let to = last_year year (parse_year scan req.date_to).0 in
        i < month_count year to
        → find_row req.user_id (year +ℤ pos (i / 12)) (pos (i % 12 + 1)) rows ≢ none
  unfolding compute_statement
  compute_statement_complete req rows {r} i h lt =
      let year = (parse_year scan req.date_from).0 in
      let count = month_count year (last_year year (parse_year scan req.date_to).0) in
      let loop =
        statement_loop (monthly_summary_repo false false) find_categories scan rows req.user_id year
          count 0 [] (pos 0) in
      elim (Bool-cases (parse_year scan req.date_from).1) [
        | inl b ↦ ground (arith, h, b)
        | inr b ↦ elim (Result-cases loop) [
          | inr (e, f) ↦ ground (arith, h, b, f)
          | inl (found, f) ↦
              subst
                (λ n. find_row req.user_id (year +ℤ pos (n / 12)) (pos (n % 12 + 1)) rows ≢ none)
                (omega arith)
                (statement_loop_complete rows req.user_id year count 0 [] (pos 0) i f lt)
        ]
      ]
