-- ===== src/Debt/Amortization/Repayment.antt =====
-- What a schedule pays back, where float64 is exact on whole numbers up to 2 ^ 53.
use aureum.Prelude.{
  ℕ, zero, suc, ◌+◌, ◌-◌, ◌^◌, ◌≤◌, ◌<◌, ◌≡◌, inl, inr, refl, sym, ap, subst, ◌∙◌, true, false,
  List, [], ◌∷◌, length, arith, ltb, Bool-cases,
}
use aureum.Prelude.Int.{ℤ, pos, negsuc, ◌+ℤ◌, ◌<ℤ◌, leb_ℤ, IsInt64, int_laws, pos_part, neg_part}
use aureum.Debt.Amortization.{
  Floats, AmortizationEntry, monthly_rate, month_of, months_from, calculate_amortization, entry_of,
}

-- What IEEE 754 says of whole numbers up to 2 ^ 53: they, their sums and differences and their order are
-- exact, and 0.01 lies between 0 and 1. A rounded int64 is compared with them as it would be exactly.
pub record IsExact (f : Floats) : Type 0 where
  pub round : (n : ℕ) → n ≤ 2 ^ 53 → f.to_int (f.of_int (pos n)) ≡ pos n
  pub difference :
      (a b : ℕ)
      → a ≤ 2 ^ 53
      → b ≤ a
      → f.sub (f.of_int (pos a)) (f.of_int (pos b)) ≡ f.of_int (pos (a - b))
  pub sum :
      (a b : ℕ)
      → a + b ≤ 2 ^ 53
      → f.add (f.of_int (pos a)) (f.of_int (pos b)) ≡ f.of_int (pos (a + b))
  pub order :
      (a b : ℕ)
      → a ≤ 2 ^ 63 - 1
      → b ≤ 2 ^ 53
      → f.ge (f.of_int (pos a)) (f.of_int (pos b)) ≡ leb_ℤ (pos b) (pos a)
  pub above_cent : (n : ℕ) → n ≤ 2 ^ 53 → f.gt (f.of_int (pos n)) f.cent ≡ ltb 0 n
  pub range : (x : f.F) → IsInt64 (f.to_int x)

-- Every month pays some principal.
abbrev pub AllPay : List AmortizationEntry → Type 0
AllPay [] = Unit
AllPay (e ∷ es) = (pos 0 <ℤ e.principal) × AllPay es

unfoldable pub principal_sum : List AmortizationEntry → ℤ
principal_sum [] = pos 0
principal_sum (e ∷ es) = e.principal +ℤ principal_sum es

-- The balance after the months of a schedule.
unfoldable pub balance_after : ℤ → List AmortizationEntry → ℤ
balance_after n [] = n
balance_after n (e ∷ es) = balance_after e.balance es

positive-pos : (a : ℤ) → leb_ℤ a (pos 0) ≡ false → (k : ℕ) × (0 < k) × (a ≡ pos k)
positive-pos (pos k) h = (k, ground arith, refl)
positive-pos (negsuc k) h = absurd (ground arith)

module _ (f : Floats) (x : IsExact f) where
  -- A month that pays some principal takes it off the balance.
  month_of-pays :
      (rate : f.F) (payment : ℤ) (n : ℕ)
      → 0 < n
      → n ≤ 2 ^ 53
      → let m = month_of f rate payment (f.of_int (pos n)) in
        pos 0 <ℤ m.0 → (k : ℕ) × (0 < k) × (k ≤ n) × (m.0 ≡ pos k) × (m.2 ≡ f.of_int (pos (n - k)))
  unfolding month_of
  month_of-pays rate payment n p b h =
      let balance = f.of_int (pos n) in
      let cents = f.to_int (f.sub (f.of_int payment) (f.mul balance rate)) in
      let m = month_of f rate payment balance in
      elim (Bool-cases (leb_ℤ cents (pos 0))) [
        | inl e ↦ absurd (ground (arith, e, h))
        | inr e ↦
            let (k, q, c) = positive-pos cents e in
            let r : IsInt64 (pos k) =
              subst IsInt64 c (x.range (f.sub (f.of_int payment) (f.mul balance rate))) in
            let o : f.ge (f.of_int cents) balance ≡ leb_ℤ (pos n) (pos k) =
              ap (λ a. f.ge (f.of_int a) balance) c ∙ x.order k n r.0 b in
            elim (Bool-cases (f.ge (f.of_int cents) balance)) [
              | inl g ↦
                  let last : m
                      ≡ (f.to_int balance, f.to_int (f.mul balance rate), f.of_int (pos 0)) =
                    rw (e, g) refl in
                  (
                    n,
                    p,
                    omega arith,
                    ap (λ t. t.0) last ∙ x.round n b,
                    ap (λ t. t.2) last ∙ ap (λ j. f.of_int (pos j)) (omega arith),
                  )
              | inr g ↦
                  let part : m
                      ≡ (cents, f.to_int (f.mul balance rate), f.sub balance (f.of_int cents)) =
                    rw (e, g) refl in
                  let le : k ≤ n = ground (arith, o, g) in
                  (
                    k,
                    q,
                    le,
                    ap (λ t. t.0) part ∙ c,
                    ap (λ t. t.2) part
                        ∙ ap (λ a. f.sub balance (f.of_int a)) c
                        ∙ x.difference n k b le,
                  )
            ]
      ]

  -- A loop over a balance of 0 does nothing, and another one makes an entry.
  pub months_from-zero :
      (rate : f.F) (payment : ℤ) (left i : ℕ)
      → months_from f rate payment left i (f.of_int (pos 0)) ≡ []
  unfolding months_from
  months_from-zero rate payment zero i = refl
  months_from-zero rate payment (suc left) i = rw (x.above_cent 0 (omega arith)) refl

  months_from-none :
      (rate : f.F) (payment : ℤ) (i n : ℕ) → months_from f rate payment 0 i (f.of_int (pos n)) ≡ []
  unfolding months_from
  months_from-none rate payment i n = refl

  pub months_from-suc :
      (rate : f.F) (payment : ℤ) (left i n : ℕ)
      → 0 < n
      → n ≤ 2 ^ 53
      → let m = month_of f rate payment (f.of_int (pos n)) in
        months_from f rate payment (suc left) i (f.of_int (pos n))
        ≡ entry_of f i m ∷ months_from f rate payment left (suc i) m.2
  unfolding months_from
  months_from-suc rate payment left i n p b =
      let e : f.gt (f.of_int (pos n)) f.cent ≡ true = x.above_cent n b ∙ ground arith in rw e refl

  -- What the months pay back, and what is left of n cents.
  abbrev Repays : ℕ → ℕ → List AmortizationEntry → Type 0
  Repays n left es =
      (b : ℕ) × (balance_after (pos n) es ≡ pos b)
      × (principal_sum es +ℤ pos b ≡ pos n)
      × (n ≤ left → b ≡ 0)

  Repays-cons :
      (left n k : ℕ) (e : AmortizationEntry) (es : List AmortizationEntry)
      → 0 < k
      → k ≤ n
      → e.principal ≡ pos k
      → e.balance ≡ pos (n - k)
      → Repays (n - k) left es
      → Repays n (suc left) (e ∷ es)
  unfolding balance_after principal_sum
  Repays-cons left n k e es p q a c (b, h, sum, done) = (
    b,
    ap (λ t. balance_after t es) c ∙ h,
    omega (int_laws, ap pos_part a, ap neg_part a, ap pos_part sum, ap neg_part sum),
    λ le. done (omega arith),
  )

  months_from-Repays :
      (rate : f.F) (payment : ℤ) (left i n : ℕ)
      → n ≤ 2 ^ 53
      → let es = months_from f rate payment left i (f.of_int (pos n)) in
        AllPay es → Repays n left es
  unfolding balance_after principal_sum
  months_from-Repays rate payment left i zero b h =
      rw (months_from-zero rate payment left i) (0, refl, omega int_laws, λ le. refl)
  months_from-Repays rate payment zero i (suc n) b h =
      rw (months_from-none rate payment i (suc n))
        (suc n, refl, omega int_laws, λ le. absurd (omega arith))
  months_from-Repays rate payment (suc left) i (suc n) b h =
      let m = month_of f rate payment (f.of_int (pos (suc n))) in
      let step = months_from-suc rate payment left i (suc n) (omega arith) b in
      let (pays, rest) = subst AllPay step h in
      let (k, p, q, a, c) = month_of-pays rate payment (suc n) (omega arith) b pays in
      let le : suc n - k ≤ 2 ^ 53 = omega arith in
      let es = λ (t : f.F). months_from f rate payment left (suc i) t in
      let ih =
        months_from-Repays rate payment left (suc i) (suc n - k) le
          (subst (λ t. AllPay (es t)) c rest) in
      subst (Repays (suc n) (suc left)) (sym step) (
        Repays-cons left (suc n) k (entry_of f i m) (es m.2) p q a
          (ap f.to_int c ∙ x.round (suc n - k) le)
          (subst (λ t. Repays (suc n - k) left (es t)) (sym c) ih))

-- A schedule for a total of at most 2 ^ 53 cents, each of whose months pays some principal: the
-- principals add up to the total less the balance after the last month, and with as many months as
-- the total has cents nothing is left.
pub calculate_amortization_repays :
    (f : Floats) (total : ℕ) (rate payment : ℤ) (months : ℕ)
    → IsExact f
    → total ≤ 2 ^ 53
    → let es = (calculate_amortization f (pos total) rate payment months).entries in
      AllPay es
      → (b : ℕ) × (balance_after (pos total) es ≡ pos b)
        × (principal_sum es +ℤ pos b ≡ pos total)
        × (total ≤ months → b ≡ 0)
unfolding calculate_amortization
calculate_amortization_repays f total rate payment months x b h =
    months_from-Repays f x (monthly_rate f rate) payment months 1 total b h

-- A schedule has at most as many months as it was asked for.
months_from-length :
    (f : Floats) (rate : f.F) (payment : ℤ) (left i : ℕ) (balance : f.F)
    → length (months_from f rate payment left i balance) ≤ left
unfolding months_from
months_from-length f rate payment zero i balance = omega arith
months_from-length f rate payment (suc left) i balance =
    ground
      (arith, months_from-length f rate payment left (suc i) (month_of f rate payment balance).2)
