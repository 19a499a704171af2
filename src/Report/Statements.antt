-- ===== src/Report/Statements.antt =====
-- `GetIncomeStatement` and `GetExpenseSummary` of apps/report-svc/internal/application/service.go, over
-- the interfaces of the repositories and with the cache of responses.
pub mod Totals
pub mod Dates
pub mod Rows
mod Tests
use Prim.Native.String.{◌++◌ as append}
use aureum.Prelude.{
  ℕ, zero, suc, ◌+◌, ◌-◌, ◌*◌, ◌/◌, ◌%◌, ◌^◌, String, Bool, true, false, Bytes, length, take,
  Option, none, some, List, [], ◌∷◌, ◌++◌, ltb, str_eq, is_empty, if◌then◌else◌, Result, ok, err,
}
use aureum.Prelude.Dict.{lookup, put}
use aureum.Prelude.Int.{ℤ, pos, negsuc, pos_part, sub_ℕ, ◌+ℤ◌, ◌-ℤ◌, add64, ltb_ℤ, eqb_ℤ}
use aureum.Report.Errors.{Err, missing_field, no_data, malformed}
use aureum.Report.Monthly.{MonthlySummary, MonthlyRepository, is_no_data}
use aureum.Report.Categories.{CategorySummary}

-- `MoneyDTO` and `moneyFromCents`
pub record Money : Type 0 where
  pub cents : ℤ
  pub currency : String

abbrev pub money_from_cents : ℤ → Money
money_from_cents cents = record { cents = cents; currency = "USD" }

pub record CategoryAmount : Type 0 where
  pub category : Bytes
  pub amount : ℤ
  pub transaction_count : ℤ  -- int32

-- A period, whose label is `%04d-%02d` of its year and month.
pub record IncomePeriod : Type 0 where
  pub year : ℤ
  pub month : ℕ
  pub categories : List CategoryAmount
  pub period_total : Money

pub record IncomeStatementRequest : Type 0 where
  pub user_id : String
  pub date_from : Bytes
  pub date_to : Bytes
  pub group_by : String

pub record IncomeStatement : Type 0 where
  pub periods : List IncomePeriod
  pub total_income : Money

-- The last two fields are not read.
pub record ExpenseSummaryRequest : Type 0 where
  pub user_id : String
  pub date_from : Bytes
  pub date_to : Bytes
  pub type : String

pub record ExpenseSummary : Type 0 where
  pub total_fixed : Money
  pub total_variable : Money
  pub total_all : Money
  pub fixed_categories : List CategoryAmount
  pub variable_categories : List CategoryAmount

-- `int32(n)`
pattern32 : ℤ → ℕ
pattern32 (pos n) = n % 2 ^ 32
pattern32 (negsuc n) = 2 ^ 32 - 1 - n % 2 ^ 32

unfoldable pub int32 : ℤ → ℤ
unfolding pattern32
int32 a = if ltb (pattern32 a) (2 ^ 31) then pos (pattern32 a) else sub_ℕ (pattern32 a) (2 ^ 32)

-- The categories of a type, in the order of the rows.
unfoldable pub amounts_of : String → List CategorySummary → List CategoryAmount
amounts_of type [] = []
amounts_of type (c ∷ cs) =
    let rest = amounts_of type cs in
    if str_eq c.category_type type
    then record {
      category = c.category_name;
      amount = c.total_amount;
      transaction_count = int32 c.txn_count;
    }
      ∷ rest
    else rest

-- What `fmt.Sscanf` with "%d" leaves in the year, and whether it returns an error.
abbrev pub ScanYear : Type 0
ScanYear = Bytes → ℤ × Bool

-- `parseYear`
unfoldable pub parse_year : ScanYear → Bytes → ℤ × Bool
parse_year scan date = if ltb (length date) 4 then (pos 0, true) else scan (take 4 date)

-- The last year and the number of months of a statement. A year has four characters, so that nothing
-- here overflows.
unfoldable pub last_year : ℤ → ℤ → ℤ
last_year year to = if eqb_ℤ to (pos 0) then year else to

unfoldable pub month_count : ℤ → ℤ → ℕ
month_count year to = if ltb_ℤ year to then pos_part (to -ℤ year +ℤ pos 1) * 12 else 12

-- `categories, _ := ...`: an error leaves no categories.
unfoldable pub or_none : Result Err (List CategorySummary) → List CategorySummary
or_none (ok cs) = cs
or_none (err e) = []

-- `cacheKey`
unfoldable pub cache_key : String → String → String
cache_key prefix id = append "rpt:" (append prefix (append ":" id))

pub record Faults : Type 0 where
  pub cache_get : Bool
  pub cache_set : Bool

module _ {S : Type 0} (repo : MonthlyRepository S)
    (find_categories : String → ℤ → ℤ → S → Result Err (List CategorySummary))
    (scan : ScanYear) where
  -- The tables, which are only read, and the cached responses of the two kinds.
  pub record World : Type 0 where
    pub tables : S
    pub statements : List (String × IncomeStatement)
    pub summaries : List (String × ExpenseSummary)

  -- The loop over the months from the m-th on, with the periods and the total so far.
  unfoldable pub statement_loop :
      S → String → ℤ → ℕ → ℕ → List IncomePeriod → ℤ → Result Err (List IncomePeriod × ℤ)
  statement_loop s user_id year zero m periods total = ok (periods, total)
  statement_loop s user_id year (suc left) m periods total =
      let yr = year +ℤ pos (m / 12) in
      let mo = m % 12 + 1 in
      elim (repo.find_by_user_and_period user_id yr (pos mo) s) [
        | err e ↦
            let rest = statement_loop s user_id year left (m + 1) periods total in
            if is_no_data e then rest else err e
        | ok summary ↦
            statement_loop s user_id year left (m + 1)
              (periods
                ++ record {
                  year = yr;
                  month = mo;
                  categories =
                      amounts_of "income" (or_none (find_categories user_id yr (pos mo) s));
                  period_total = money_from_cents summary.total_income;
                }
                  ∷ [])
              (add64 total summary.total_income)
      ]

  -- The response of the periods that were found.
  unfoldable pub statement_of : List IncomePeriod × ℤ → Result Err IncomeStatement
  statement_of ([], total) = err no_data
  statement_of (p ∷ ps, total) =
      ok record { periods = p ∷ ps; total_income = money_from_cents total }

  -- `GetIncomeStatement` past the cache.
  unfoldable pub compute_statement : IncomeStatementRequest → S → Result Err IncomeStatement
  compute_statement req s =
      let (year, failed) = parse_year scan req.date_from in
      let to = last_year year (parse_year scan req.date_to).0 in
      if failed
      then err malformed
      else elim (statement_loop s req.user_id year (month_count year to) 0 [] (pos 0)) [
        | err e ↦ err e
        | ok found ↦ statement_of found
      ]

  unfoldable pub statement_key : IncomeStatementRequest → String
  statement_key req = cache_key "income_statement" (append req.user_id (append "|" req.group_by))

  -- `GetIncomeStatement`
  unfoldable pub get_income_statement :
      Faults → IncomeStatementRequest → World → World × Result Err IncomeStatement
  get_income_statement faults req w =
      if is_empty req.user_id
      then (w, err missing_field)
      else elim (if faults.cache_get then none else lookup (statement_key req) w.statements) [
        | some cached ↦ (w, ok cached)
        | none ↦ elim (compute_statement req w.tables) [
          | err e ↦ (w, err e)
          | ok resp ↦ (
            if faults.cache_set
                then w
                else record w { statements = put (statement_key req) resp w.statements },
            ok resp,
          )
        ]
      ]

  -- The sums and the categories of an expense summary so far.
  pub record Expenses : Type 0 where
    pub found_data : Bool
    pub total_all : ℤ
    pub total_variable : ℤ
    pub categories : List CategoryAmount

  unfoldable pub add_categories : List CategoryAmount → Expenses → Expenses
  add_categories [] x = x
  add_categories (c ∷ cs) x = add_categories cs record x {
    total_variable = add64 x.total_variable c.amount;
    categories = x.categories ++ c ∷ [];
  }

  -- The loop over the months of the year from the m-th on.
  unfoldable pub expense_loop : S → String → ℤ → ℕ → ℕ → Expenses → Result Err Expenses
  expense_loop s user_id year zero m x = ok x
  expense_loop s user_id year (suc left) m x =
      elim (repo.find_by_user_and_period user_id year (pos m) s) [
        | err e ↦
            let rest = expense_loop s user_id year left (m + 1) x in
            if is_no_data e then rest else err e
        | ok summary ↦ expense_loop s user_id year left (m + 1) (
            add_categories (amounts_of "expense" (or_none (find_categories user_id year (pos m) s)))
              record x { found_data = true; total_all = add64 x.total_all summary.total_expenses })
      ]

  -- `GetExpenseSummary` past the cache.
  unfoldable pub compute_expenses : ExpenseSummaryRequest → S → Result Err ExpenseSummary
  compute_expenses req s =
      let parsed = (parse_year scan req.date_from).0 in
      let year = if eqb_ℤ parsed (pos 0) then pos 2026 else parsed in
      elim (expense_loop s req.user_id year 12 1
        record { found_data = false; total_all = pos 0; total_variable = pos 0; categories = [] }) [
          | err e ↦ err e
          | ok x ↦
              if x.found_data
              then ok record {
                total_fixed = money_from_cents (pos 0);
                total_variable = money_from_cents x.total_variable;
                total_all = money_from_cents x.total_all;
                fixed_categories = [];
                variable_categories = x.categories;
              }
              else err no_data
        ]

  -- `GetExpenseSummary`
  unfoldable pub get_expense_summary :
      Faults → ExpenseSummaryRequest → World → World × Result Err ExpenseSummary
  get_expense_summary faults req w =
      let key = cache_key "expense_summary" req.user_id in
      if is_empty req.user_id
      then (w, err missing_field)
      else elim (if faults.cache_get then none else lookup key w.summaries) [
        | some cached ↦ (w, ok cached)
        | none ↦ elim (compute_expenses req w.tables) [
          | err e ↦ (w, err e)
          | ok resp ↦ (
            if faults.cache_set then w else record w { summaries = put key resp w.summaries },
            ok resp,
          )
        ]
      ]
