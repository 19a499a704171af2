-- ===== src/Debt/Amortization.antt =====
-- apps/debt-svc/internal/domain/amortization.go: the monthly schedule of a debt. The arithmetic on
-- float64 is a parameter.
pub mod Repayment
pub mod Stranded
pub mod FixedPoint
mod Tests
use aureum.Prelude.{
  ℕ, zero, suc, ◌-◌, ◌%◌, ◌^◌, String, Bool, List, [], ◌∷◌, if◌then◌else◌, length, ltb, ◌==◌, ◌+◌,
  ◌*◌, leb, Option, none, some, Result, ok, err,
}
use aureum.Prelude.Int.{ℤ, pos, negsuc, leb_ℤ, eqb_ℤ, add64, div64, wrap64, IsInt64, sub_ℕ}
use aureum.Debt.Errors.{Err, invalid_date}

-- Go's float64, with the functions of `math` and the conversions that the schedule uses: `to_int` is
-- `int64(math.Round(x))`, `of_int` is `float64(n)`, and `cent` is the constant 0.01.
pub record Floats : Type 1 where
  pub F : Type 0
  pub of_int : ℤ → F
  pub to_int : F → ℤ
  pub add : F → F → F
  pub sub : F → F → F
  pub mul : F → F → F
  pub div : F → F → F
  pub pow : F → F → F
  pub gt : F → F → Bool
  pub ge : F → F → Bool
  pub cent : F

pub record AmortizationEntry : Type 0 where
  pub month : ℤ  -- int32
  pub principal : ℤ
  pub interest : ℤ
  pub balance : ℤ
  pub total_payment : ℤ

pub record AmortizationSchedule : Type 0 where
  pub debt_id : String
  pub total_amount : ℤ
  pub monthly_payment : ℤ
  pub interest_rate : ℤ
  pub remaining_months : ℤ  -- int32
  pub total_interest : ℤ
  pub total_paid : ℤ
  pub entries : List AmortizationEntry

-- `int32(n)`
abbrev pub int32 : ℕ → ℤ
int32 n = let w = n % 2 ^ 32 in if ltb w (2 ^ 31) then pos w else negsuc (2 ^ 32 - w - 1)

module _ (f : Floats) where
  -- `float64(interestRate) / 10000.0 / 12.0`
  abbrev pub monthly_rate : ℤ → f.F
  monthly_rate rate = f.div (f.div (f.of_int rate) (f.of_int (pos 10000))) (f.of_int (pos 12))

  -- One month: the principal and the interest in cents, and the balance after it.
  unfoldable pub month_of : f.F → ℤ → f.F → ℤ × ℤ × f.F
  month_of rate payment balance =
      let interest = f.mul balance rate in
      let principal = f.sub (f.of_int payment) interest in
      let cents = f.to_int principal in
      if leb_ℤ cents (pos 0)
      then (pos 0, f.to_int balance, f.of_int (pos 0))
      else if f.ge (f.of_int cents) balance
      then (f.to_int balance, f.to_int (f.mul balance rate), f.of_int (pos 0))
      else (cents, f.to_int interest, f.sub balance (f.of_int cents))

  abbrev pub entry_of : ℕ → ℤ × ℤ × f.F → AmortizationEntry
  entry_of i (principal, interest, balance) = record {
    month = int32 i;
    principal = principal;
    interest = interest;
    balance = f.to_int balance;
    total_payment = add64 principal interest;
  }

  -- `for i := 1; i <= months && balance > 0.01; i++`, with the months that are left and the month.
  unfoldable pub months_from : f.F → ℤ → ℕ → ℕ → f.F → List AmortizationEntry
  months_from rate payment zero i balance = []
  months_from rate payment (suc left) i balance =
      let m = month_of rate payment balance in
      let rest = months_from rate payment left (suc i) m.2 in
      if f.gt balance f.cent then entry_of i m ∷ rest else []

  -- `totalInterest += float64(interestCents)`
  unfoldable pub interest_from : f.F → List AmortizationEntry → f.F
  interest_from sum [] = sum
  interest_from sum (e ∷ es) = interest_from (f.add sum (f.of_int e.interest)) es

  -- `CalculateAmortization`
  unfoldable pub calculate_amortization : ℤ → ℤ → ℤ → ℕ → AmortizationSchedule
  calculate_amortization total rate payment months =
      let entries = months_from (monthly_rate rate) payment months 1 (f.of_int total) in
      let interest = f.to_int (interest_from (f.of_int (pos 0)) entries) in
      record {
        debt_id = "";
        total_amount = total;
        monthly_payment = payment;
        interest_rate = rate;
        remaining_months = int32 (length entries);
        total_interest = interest;
        total_paid = add64 total interest;
        entries = entries;
      }

  -- `ComputeMonthlyPayment`. The months are not 0 where it divides.
  unfoldable pub compute_monthly_payment : ℤ → ℤ → ℕ → ℤ
  compute_monthly_payment total rate months =
      let monthly = monthly_rate rate in
      let one = f.of_int (pos 1) in
      let power = f.pow (f.add one monthly) (f.of_int (pos months)) in
      let payment = f.div (f.mul (f.of_int total) (f.mul monthly power)) (f.sub power one) in
      if months == 0
      then pos 0
      else if eqb_ℤ rate (pos 0)
      then (elim (div64 total (pos months)) [ none ↦ pos 0 | some q ↦ q ])
      else f.to_int payment

-- `MonthsBetween`, with the year and the month that `time.Parse` reads as a parameter.
unfoldable pub months_between : (String → Option (ℕ × ℕ)) → String → String → Result Err ℕ
months_between parse start end = elim (parse start) [
  | none ↦ err invalid_date
  | some (y, m) ↦ elim (parse end) [
    | none ↦ err invalid_date
    | some (y', m') ↦
        let from = y * 12 + m in let to = y' * 12 + m' in ok (if leb to from then 1 else to - from)
  ]
]
