-- ===== src/Debt/Amortization/Tests.antt =====
-- The schedules with fixed-point numbers of 1/120000 in place of float64.
use aureum.Prelude.{ℕ, ◌+◌, ◌-◌, ◌*◌, ◌^◌, ◌≤◌, ◌≡◌, refl, [], ◌∷◌, arith, ltb, map}
use aureum.Prelude.Int.{
  pos, ◌+ℤ◌, ◌-ℤ◌, ◌*ℤ◌, ◌≤ℤ◌, quot_ℤ, leb_ℤ, ltb_ℤ, wrap64, wrap64_exact, wrap64-IsInt64, int_laws,
}
use aureum.Debt.Amortization.FixedPoint.{to_fixed, nearest, fixed}
use aureum.Debt.Amortization.{
  AmortizationSchedule, calculate_amortization, months_from, month_of, monthly_rate,
}
use aureum.Debt.Amortization.Repayment.{
  IsExact, AllPay, principal_sum, balance_after, calculate_amortization_repays,
}
use aureum.Debt.Amortization.Stranded.{stranded, calculate_amortization_strands}

to_fixed-pos : (n : ℕ) → to_fixed (pos n) ≡ pos (n * 120000)
to_fixed-pos n = ground arith

fixed-round : (n : ℕ) → n ≤ 2 ^ 53 → wrap64 (nearest (to_fixed (pos n))) ≡ pos n
fixed-round n b =
    let e : nearest (to_fixed (pos n)) ≡ pos n = rw (to_fixed-pos n) (ground arith) in
    rw e (wrap64_exact (pos n) (omega arith, omega arith))

fixed-difference : (a b : ℕ) → b ≤ a → to_fixed (pos a) -ℤ to_fixed (pos b) ≡ to_fixed (pos (a - b))
fixed-difference a b h = rw (to_fixed-pos a, to_fixed-pos b, to_fixed-pos (a - b)) (omega int_laws)

fixed-sum : (a b : ℕ) → to_fixed (pos a) +ℤ to_fixed (pos b) ≡ to_fixed (pos (a + b))
fixed-sum a b = rw (to_fixed-pos a, to_fixed-pos b, to_fixed-pos (a + b)) (omega int_laws)

fixed-order : (a b : ℕ) → leb_ℤ (to_fixed (pos b)) (to_fixed (pos a)) ≡ leb_ℤ (pos b) (pos a)
fixed-order a b = rw (to_fixed-pos a, to_fixed-pos b) (ground arith)

fixed-above_cent : (n : ℕ) → ltb_ℤ (pos 1200) (to_fixed (pos n)) ≡ ltb 0 n
fixed-above_cent n = rw (to_fixed-pos n) (ground arith)

fixed-IsExact : IsExact fixed
fixed-IsExact = record {
  round = fixed-round;
  difference = λ a b p q. fixed-difference a b q;
  sum = λ a b p. fixed-sum a b;
  order = λ a b p q. fixed-order a b;
  above_cent = λ n p. fixed-above_cent n;
  range = λ x. wrap64-IsInt64 (nearest x);
}

-- 10.00 at 12% a year, in payments of 4.00.
abbrev paid_back : AmortizationSchedule
paid_back = calculate_amortization fixed (pos 1000) (pos 1200) (pos 400) 3

paid_back_balances : map (λ e. e.balance) paid_back.entries ≡ pos 610 ∷ pos 216 ∷ pos 0 ∷ []
unfolding calculate_amortization months_from month_of wrap64 quot_ℤ ◌*ℤ◌ ◌-ℤ◌ ◌+ℤ◌
paid_back_balances = refl

paid_back-AllPay : AllPay paid_back.entries
unfolding calculate_amortization months_from month_of wrap64 quot_ℤ ◌*ℤ◌ ◌-ℤ◌ ◌+ℤ◌
paid_back-AllPay = (omega arith, (omega arith, (omega arith, tt)))

calculate_amortization_repays_example :
    (b : ℕ) × (balance_after (pos 1000) paid_back.entries ≡ pos b)
    × (principal_sum paid_back.entries +ℤ pos b ≡ pos 1000)
    × (1000 ≤ 3 → b ≡ 0)
calculate_amortization_repays_example =
    calculate_amortization_repays fixed 1000 (pos 1200) (pos 400) 3 fixed-IsExact (omega arith)
      paid_back-AllPay

-- 1000.00 at 12% a year, in payments of 9.00 where the first interest is 10.00.
interest_not_covered :
    fixed.to_int (
      fixed.sub
        (fixed.of_int (pos 900))
        (fixed.mul (fixed.of_int (pos 100000)) (monthly_rate fixed (pos 1200))))
    ≤ℤ pos 0
unfolding wrap64 quot_ℤ ◌*ℤ◌ ◌-ℤ◌
interest_not_covered = omega arith

calculate_amortization_strands_example :
    let s = calculate_amortization fixed (pos 100000) (pos 1200) (pos 900) 12 in
    (s.entries ≡ stranded 100000 ∷ [])
    × (s.total_interest ≡ pos 100000)
    × (s.total_paid ≡ pos 200000)
calculate_amortization_strands_example =
    calculate_amortization_strands fixed 100000 (pos 1200) (pos 900) 11 fixed-IsExact (omega arith)
      (omega arith) interest_not_covered
