-- ===== src/Debt/Amortization/FixedPoint.antt =====
-- Fixed-point numbers of 1/120000, which the tests take in place of float64.
use aureum.Prelude.{◌+◌, ◌*◌, ◌/◌}
use aureum.Prelude.Int.{
  ℤ, pos, ◌+ℤ◌, ◌-ℤ◌, ◌*ℤ◌, quot_ℤ, leb_ℤ, ltb_ℤ, wrap64, sub_ℕ, pos_part, neg_part,
}
use aureum.Debt.Amortization.{Floats}

abbrev pub to_fixed : ℤ → ℤ
to_fixed n = sub_ℕ (pos_part n * 120000) (neg_part n * 120000)

abbrev pub nearest : ℤ → ℤ
nearest x = sub_ℕ ((pos_part x + 60000) / 120000) ((neg_part x + 60000) / 120000)

abbrev pub fixed : Floats
fixed = record {
  F = ℤ;
  of_int = to_fixed;
  to_int = λ x. wrap64 (nearest x);
  add = ◌+ℤ◌;
  sub = ◌-ℤ◌;
  mul = λ x y. quot_ℤ (x *ℤ y) (pos 120000);
  div = λ x y. quot_ℤ (x *ℤ pos 120000) y;
  pow = λ x y. x;
  gt = λ x y. ltb_ℤ y x;
  ge = λ x y. leb_ℤ y x;
  cent = pos 1200;
}
