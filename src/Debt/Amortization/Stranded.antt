-- ===== src/Debt/Amortization/Stranded.antt =====
-- A schedule whose payment does not cover the interest.
use aureum.Prelude.{ℕ, suc, ◌+◌, ◌^◌, ◌≤◌, ◌<◌, ◌≡◌, refl, ap, ◌∙◌, true, [], ◌∷◌, arith}
use aureum.Prelude.Int.{ℤ, pos, ◌+ℤ◌, ◌≤ℤ◌, leb_ℤ, add64, add64_exact, int_laws}
use aureum.Debt.Amortization.{
  Floats, AmortizationEntry, monthly_rate, month_of, months_from, calculate_amortization, entry_of,
  interest_from,
}
use aureum.Debt.Amortization.Repayment.{IsExact, months_from-zero, months_from-suc}

-- The one month of a schedule that does not cover the interest on a total.
abbrev pub stranded : ℕ → AmortizationEntry
stranded total = record {
  month = pos 1;
  principal = pos 0;
  interest = pos total;
  balance = pos 0;
  total_payment = pos total;
}

month_of-strands :
    (f : Floats) (x : IsExact f) (rate : f.F) (payment : ℤ) (n : ℕ)
    → n ≤ 2 ^ 53
    → f.to_int (f.sub (f.of_int payment) (f.mul (f.of_int (pos n)) rate)) ≤ℤ pos 0
    → month_of f rate payment (f.of_int (pos n)) ≡ (pos 0, pos n, f.of_int (pos 0))
unfolding month_of
month_of-strands f x rate payment n b h =
    let e : leb_ℤ (f.to_int (f.sub (f.of_int payment) (f.mul (f.of_int (pos n)) rate))) (pos 0)
        ≡ true =
      ground (arith, h) in
    rw e (ap (λ a. (pos 0, a, f.of_int (pos 0))) (x.round n b))

add64-pos : (n m : ℕ) → n ≤ 2 ^ 53 → m ≤ 2 ^ 53 → add64 (pos n) (pos m) ≡ pos (n + m)
add64-pos n m b c =
    let e : pos n +ℤ pos m ≡ pos (n + m) = omega int_laws in
    add64_exact (pos n) (pos m) (rw e (omega arith, omega arith)) ∙ e

add64-zero : (n : ℕ) → n ≤ 2 ^ 53 → add64 (pos 0) (pos n) ≡ pos n
add64-zero n b = add64-pos 0 n (omega arith) b ∙ ap pos (omega arith)

-- Where the first payment does not cover its interest, the schedule has one month with no
-- principal, the whole total as its interest and nothing left, and it counts the total twice.
pub calculate_amortization_strands :
    (f : Floats) (total : ℕ) (rate payment : ℤ) (months : ℕ)
    → IsExact f
    → 0 < total
    → total ≤ 2 ^ 53
    → let interest = f.mul (f.of_int (pos total)) (monthly_rate f rate) in
      f.to_int (f.sub (f.of_int payment) interest) ≤ℤ pos 0
      → let s = calculate_amortization f (pos total) rate payment (suc months) in
        (s.entries ≡ stranded total ∷ [])
        × (s.total_interest ≡ pos total)
        × (s.total_paid ≡ pos (total + total))
unfolding calculate_amortization interest_from
calculate_amortization_strands f total rate payment months x p b h =
    let r = monthly_rate f rate in
    let month = month_of-strands f x r payment total b h in
    let rest =
      ap (λ (t : f.F). months_from f r payment months 2 t) (ap (λ t. t.2) month)
      ∙ months_from-zero f x r payment months 2 in
    let entry : entry_of f 1 (pos 0, pos total, f.of_int (pos 0)) ≡ stranded total =
      rw (x.round 0 (omega arith), add64-zero total b) refl in
    let es : months_from f r payment (suc months) 1 (f.of_int (pos total)) ≡ stranded total ∷ [] =
      months_from-suc f x r payment months 1 total p b ∙ rw (rest, month, entry) refl in
    let sum : f.to_int (f.add (f.of_int (pos 0)) (f.of_int (pos total))) ≡ pos total =
      ap f.to_int (x.sum 0 total (omega arith) ∙ ap (λ n. f.of_int (pos n)) (omega arith))
      ∙ x.round total b in
    rw (es, sum) (refl, refl, add64-pos total total b b)
