-- ===== src/Report/Statements/Totals.antt =====
-- What an income statement adds up.
use mathlib.Core.List.{append_assoc, append-nil}
use aureum.Prelude.{
  ℕ, zero, suc, ◌+◌, ◌/◌, ◌%◌, String, ◌*◌, ◌≤◌, ◌<◌, Bytes, length, take, str_eq, if◌then◌else◌,
  false, refl, ◌≡◌, sym, ap, ◌∙◌, inl, inr, List, [], ◌∷◌, ◌++◌, arith, Result, ok, err,
  Result-cases, Bool-cases,
}
use aureum.Prelude.Int.{ℤ, pos, ◌+ℤ◌, ◌-ℤ◌, add64}
use aureum.Report.Errors.{Err}
use aureum.Report.Monthly.{MonthlyRepository, is_no_data}
use aureum.Report.Categories.{CategorySummary}
use aureum.Report.Statements.{
  IncomePeriod, CategoryAmount, int32, IncomeStatementRequest, IncomeStatement, money_from_cents,
  amounts_of, or_none, ScanYear, parse_year, last_year, month_count, statement_loop, statement_of,
  compute_statement,
}

unfoldable pub sum_periods : ℤ → List IncomePeriod → ℤ
sum_periods t [] = t
sum_periods t (p ∷ ps) = sum_periods (add64 t p.period_total.cents) ps

-- The rows of income among the categories of a month.
unfoldable pub income_amounts : List CategorySummary → List CategoryAmount
income_amounts [] = []
income_amounts (c ∷ cs) =
    let rest = income_amounts cs in
    if str_eq c.category_type "income"
    then record {
      category = c.category_name;
      amount = c.total_amount;
      transaction_count = int32 c.txn_count;
    }
      ∷ rest
    else rest

amounts_of-income : (cs : List CategorySummary) → amounts_of "income" cs ≡ income_amounts cs
unfolding amounts_of income_amounts
amounts_of-income [] = refl
amounts_of-income (c ∷ cs) = ground (arith, amounts_of-income cs)

-- The amounts of income that a query for the categories leaves.
unfoldable pub amounts_read : Result Err (List CategorySummary) → List CategoryAmount
amounts_read (ok cs) = income_amounts cs
amounts_read (err e) = []

amounts_of-read :
    (r : Result Err (List CategorySummary)) → amounts_of "income" (or_none r) ≡ amounts_read r
unfolding amounts_read or_none amounts_of
amounts_of-read (ok cs) = amounts_of-income cs
amounts_of-read (err e) = refl

-- A date begins with four bytes that the scan reads as the year y.
abbrev pub BeginsWith : ScanYear → Bytes → ℕ → Type 0
BeginsWith scan date y = (4 ≤ length date) × (scan (take 4 date) ≡ (pos y, false))

pos-plus : (a b : ℕ) → pos a +ℤ pos b ≡ pos (a + b)
unfolding ◌+ℤ◌
pos-plus a b = ground arith

month_count-years : (y n : ℕ) → month_count (pos y) (pos (y + n)) ≡ (n + 1) * 12
unfolding month_count ◌+ℤ◌ ◌-ℤ◌
month_count-years y n = ground arith

years-read :
    (scan : ScanYear) (date_from date_to : Bytes) (y n : ℕ)
    → 0 < y
    → BeginsWith scan date_from y
    → BeginsWith scan date_to (y + n)
    → (parse_year scan date_from ≡ (pos y, false))
      × (last_year (pos y) (parse_year scan date_to).0 ≡ pos (y + n))
unfolding parse_year last_year
years-read scan date_from date_to y n p h h' = ground arith

module _ {S : Type 0} (repo : MonthlyRepository S)
    (find_categories : String → ℤ → ℤ → S → Result Err (List CategorySummary))
    (scan : ScanYear) where
  -- The reference: the period of a month, if the month has a summary.
  unfoldable pub period_at : S → String → ℕ → ℕ → List IncomePeriod
  period_at s user_id y mo = elim (repo.find_by_user_and_period user_id (pos y) (pos mo) s) [
    | err e ↦ []
    | ok summary ↦
        record {
          year = pos y;
          month = mo;
          categories = amounts_read (find_categories user_id (pos y) (pos mo) s);
          period_total = record { cents = summary.total_income; currency = "USD" };
        }
        ∷ []
  ]

  -- The periods of k months of a year from the month mo on.
  unfoldable pub months_of : S → String → ℕ → ℕ → ℕ → List IncomePeriod
  months_of s user_id y mo zero = []
  months_of s user_id y mo (suc k) = period_at s user_id y mo ++ months_of s user_id y (mo + 1) k

  -- January to December of each of n years from the year y on.
  unfoldable pub years_of : S → String → ℕ → ℕ → List IncomePeriod
  years_of s user_id y zero = []
  years_of s user_id y (suc n) = months_of s user_id y 1 12 ++ years_of s user_id (y + 1) n

  -- The periods of the loop, which counts the months from the m-th on.
  periods_of : S → String → ℤ → ℕ → ℕ → List IncomePeriod
  periods_of s user_id year zero m = []
  periods_of s user_id year (suc left) m =
      let yr = year +ℤ pos (m / 12) in
      let mo = m % 12 + 1 in
      elim (repo.find_by_user_and_period user_id yr (pos mo) s) [
        | err e ↦ periods_of s user_id year left (m + 1)
        | ok summary ↦
            record {
              year = yr;
              month = mo;
              categories = amounts_of "income" (or_none (find_categories user_id yr (pos mo) s));
              period_total = money_from_cents summary.total_income;
            }
            ∷ periods_of s user_id year left (m + 1)
      ]

  statement_loop-periods :
      (s : S) (user_id : String) (year : ℤ) (left m : ℕ) (ps : List IncomePeriod) (t : ℤ)
      {qs : List IncomePeriod} {t' : ℤ}
      → statement_loop repo find_categories scan s user_id year left m ps t ≡ ok (qs, t')
      → (qs ≡ ps ++ periods_of s user_id year left m)
        × (t' ≡ sum_periods t (periods_of s user_id year left m))
  unfolding statement_loop periods_of sum_periods
  statement_loop-periods s user_id year zero m ps t {qs} {t'} h = ground (arith, h, append-nil ps)
  statement_loop-periods s user_id year (suc left) m ps t {qs} {t'} h =
      let yr = year +ℤ pos (m / 12) in
      let mo = m % 12 + 1 in
      let rest = periods_of s user_id year left (m + 1) in
      elim (Result-cases (repo.find_by_user_and_period user_id yr (pos mo) s)) [
        | inr (e, f) ↦ elim (Bool-cases (is_no_data e)) [
          | inl b ↦
              let h' : statement_loop repo find_categories scan s user_id year left (m + 1) ps t
                  ≡ ok (qs, t') =
                ground (arith, h, f, b) in
              ground (arith, f, statement_loop-periods s user_id year left (m + 1) ps t h')
          | inr b ↦ ground (arith, h, f, b)
        ]
        | inl (x, f) ↦
            let p : IncomePeriod = record {
              year = yr;
              month = mo;
              categories = amounts_of "income" (or_none (find_categories user_id yr (pos mo) s));
              period_total = money_from_cents x.total_income;
            } in
            let h' : statement_loop repo find_categories scan s user_id year left (m + 1)
                  (ps ++ p ∷ []) (add64 t x.total_income)
                ≡ ok (qs, t') =
              ground (arith, h, f) in
            let (same, total) =
              statement_loop-periods s user_id year left (m + 1) (ps ++ p ∷ [])
                (add64 t x.total_income) h' in
            let found : periods_of s user_id year (suc left) m ≡ p ∷ rest = ground (arith, f) in
            (
              same ∙ append_assoc ps (p ∷ []) rest ∙ ap (λ r. ps ++ r) (sym found),
              total ∙ ap (sum_periods t) (sym found),
            )
      ]

  periods_of-step :
      (s : S) (user_id : String) (y left m : ℕ)
      → periods_of s user_id (pos y) (suc left) m
        ≡ period_at s user_id (y + m / 12) (m % 12 + 1) ++ periods_of s user_id (pos y) left (m + 1)
  unfolding periods_of period_at or_none
  periods_of-step s user_id y left m =
      let yr = pos (y + m / 12) in
      let mo = pos (m % 12 + 1) in
      let e = pos-plus y (m / 12) in
      elim (Result-cases (repo.find_by_user_and_period user_id yr mo s)) [
        | inr (x, f) ↦ rw (periods_of, period_at, e, f) refl
        | inl (x, f) ↦
            let cs = find_categories user_id yr mo s in
            rw (periods_of, period_at, e, f, e, amounts_of-read cs) refl
      ]

  periods_of-months :
      (s : S) (user_id : String) (y j i left k : ℕ)
      → i + k ≤ 12
      → periods_of s user_id (pos y) (k + left) (j * 12 + i)
        ≡ months_of s user_id (y + j) (i + 1) k
          ++ periods_of s user_id (pos y) left (j * 12 + (i + k))
  unfolding months_of
  periods_of-months s user_id y j i left zero h = ground arith
  periods_of-months s user_id y j i left (suc k) h =
      let year : (j * 12 + i) / 12 ≡ j = omega arith in
      let month : (j * 12 + i) % 12 ≡ i = omega arith in
      let ih = periods_of-months s user_id y j (i + 1) left k (omega arith) in
      let step = periods_of-step s user_id y (k + left) (j * 12 + i) in
      let here = period_at s user_id (y + j) (i + 1) in
      let months = months_of s user_id (y + j) (i + 1 + 1) k in
      let assoc =
        append_assoc here months (periods_of s user_id (pos y) left (j * 12 + (i + 1 + k))) in
      ground (arith, step, year, month, ih, assoc)

  periods_of-years :
      (s : S) (user_id : String) (y j n : ℕ)
      → periods_of s user_id (pos y) (n * 12) (j * 12) ≡ years_of s user_id (y + j) n
  unfolding years_of periods_of
  periods_of-years s user_id y j zero = refl
  periods_of-years s user_id y j (suc n) =
      let months = periods_of-months s user_id y j 0 (n * 12) 12 (omega arith) in
      let ih = periods_of-years s user_id y (j + 1) n in
      let year = months_of s user_id (y + j) 1 12 in
      let split : suc n * 12 ≡ 12 + n * 12 = omega arith in
      let start : j * 12 ≡ j * 12 + 0 = omega arith in
      let end : j * 12 + (0 + 12) ≡ (j + 1) * 12 = omega arith in
      let next : y + (j + 1) ≡ y + j + 1 = omega arith in
      ap (λ c. periods_of s user_id (pos y) c (j * 12)) split
      ∙ ap (periods_of s user_id (pos y) (12 + n * 12)) start
      ∙ months
      ∙ ap (λ m. year ++ periods_of s user_id (pos y) (n * 12) m) end
      ∙ ap (λ r. year ++ r) (ih ∙ ap (λ v. years_of s user_id v n) next)

  -- A statement from a year on to the same or a later one has a period for each month, from January of
  -- the first year to December of the last, that has a summary, in this order, with the income of that
  -- month and its categories of income; and its total is the sum of them at 64 bits.
  pub compute_statement-periods :
      (req : IncomeStatementRequest) (s : S) (y n : ℕ) {r : IncomeStatement}
      → 0 < y
      → BeginsWith scan req.date_from y
      → BeginsWith scan req.date_to (y + n)
      → compute_statement repo find_categories scan req s ≡ ok r
      → (r.periods ≡ years_of s req.user_id y (n + 1))
        × (r.total_income.cents ≡ sum_periods (pos 0) r.periods)
  unfolding compute_statement statement_of
  compute_statement-periods req s y n {r} p from to h =
      let (first, last) = years-read scan req.date_from req.date_to y n p from to in
      let count = (n + 1) * 12 in
      let loop =
        statement_loop repo find_categories scan s req.user_id (pos y) count 0 [] (pos 0) in
      let start : y + 0 ≡ y = omega arith in
      let years =
        periods_of-years s req.user_id y 0 (n + 1)
        ∙ ap (λ v. years_of s req.user_id v (n + 1)) start in
      let c = month_count-years y n in
      elim (Result-cases loop) [
        | inr (e, f) ↦ ground (arith, h, first, last, c, f)
        | inl (([], t), f) ↦ ground (arith, h, first, last, c, f)
        | inl ((q ∷ qs, t), f) ↦
            let (same, total) = statement_loop-periods s req.user_id (pos y) count 0 [] (pos 0) f in
            let r' : (r.periods ≡ q ∷ qs) × (r.total_income.cents ≡ t) =
              ground (arith, h, first, last, c, f) in
            (r'.0 ∙ same ∙ years, r'.1 ∙ total ∙ ap (sum_periods (pos 0)) (sym (r'.0 ∙ same)))
      ]
