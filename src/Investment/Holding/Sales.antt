-- ===== src/Investment/Holding/Sales.antt =====
-- What a sale does to a holding.
use native.Mathlib.Nat.{mul-div-le, lt-mul-div-succ, mul-div_cancel, le_trans, sub_self}
use aureum.Prelude.{
  ℕ, ◌+◌, ◌-◌, ◌*◌, ◌/◌, ◌^◌, ◌≤◌, ◌<◌, ◌≡◌, refl, ◌∙◌, ap, none, some, arith, ◌==◌, if◌then◌else◌,
  Option-cases, inl, inr,
}
use aureum.Prelude.Int.{ℤ, pos, ◌-ℤ◌, ◌≤ℤ◌, mul64-pos, div64-pos, sub64_nonneg, sub64, mul64, div64}
use aureum.Investment.Holding.{Investment, sold, book_sale, sell}

-- A holding of q units that cost t cents in all, where the product of the two is an int64.
pub record Holds (inv : Investment) (q t : ℕ) : Type 0 where
  pub quantity_is : inv.quantity ≡ pos q
  pub invested_is : inv.total_invested ≡ pos t
  pub quantity_range : q ≤ 2 ^ 63 - 1
  pub invested_range : t ≤ 2 ^ 63 - 1
  pub product_range : t * q ≤ 2 ^ 63 - 1

product-le : (t k q m : ℕ) → k ≤ q → t * q ≤ m → t * k ≤ m
product-le t k q m h p = grind arith

share-bound : (x t q : ℕ) → 0 < q → q * x ≤ q * t → x ≤ t
share-bound x t q p h = grind arith

share-le : (t k q : ℕ) → 0 < q → k ≤ q → t * k / q ≤ t
share-le t k q p h =
    share-bound (t * k / q) t q p
      (le_trans (mul-div-le (t * k) q) (product-le t k q (q * t) h (omega arith)))

book_sale-Holds :
    (now k r q t : ℕ) (inv : Investment)
    → Holds inv q t
    → k ≤ q
    → r ≤ t
    → book_sale now (pos k) (pos r) inv ≡ record inv {
      quantity = pos (q - k);
      total_invested = pos (t - r);
      updated_at = now;
      status = if q - k == 0 then sold else inv.status;
    }
unfolding book_sale ◌-ℤ◌
book_sale-Holds now k r q t inv h hk hr =
    rw (h.quantity_is, h.invested_is)
      (ground (arith, sub64_nonneg (pos q) (pos k), sub64_nonneg (pos t) (pos r)))

-- Where the product of the cost and the quantity of a holding is an int64, the sale of k of q units, at
-- any price that is not negative, takes the share k / q of the cost, rounded down, off it, and marks
-- the holding sold exactly when nothing is left of it.
pub sell_exact :
    (now k q t : ℕ) (price : ℤ) (inv : Investment)
    → Holds inv q t
    → 0 < k
    → k ≤ q
    → pos 0 ≤ℤ price
    → sell now (pos k) price inv
      ≡ some (
        record inv {
          quantity = pos (q - k);
          total_invested = pos (t - t * k / q);
          updated_at = now;
          status = if q - k == 0 then sold else inv.status;
        },
        none,
      )
unfolding sell
sell_exact now k q t price inv h pk hk pp =
    let b = book_sale-Holds now k (t * k / q) q t inv h hk (share-le t k q (omega arith) hk) in
    ground (
      arith,
      mul64-pos t k (product-le t k q (2 ^ 63 - 1) hk h.product_range),
      div64-pos (t * k) q (omega arith) (product-le t k q (2 ^ 63 - 1) hk h.product_range),
      b,
    )

sub-mul : (a b c : ℕ) → b ≤ a → (a - b) * c + b * c ≡ a * c
sub-mul a b c h = let e : a - b + b ≡ a = omega arith in omega (arith, ap (λ (n : ℕ). n * c) e)

share_bounds :
    (t k q x : ℕ)
    → k ≤ q
    → x ≤ t
    → q * x ≤ t * k
    → t * k < q * (x + 1)
    → (t * (q - k) ≤ (t - x) * q) × ((t - x) * q < t * (q - k) + q)
share_bounds t k q x hk hx lo hi = omega (arith, sub-mul t x q hx, sub-mul q k t hk)

-- The cost that stays with the units that are left is their share of the cost, rounded up: at least
-- the share, and less than a cent more.
pub sell_shares :
    (now k q t : ℕ) (price : ℤ) (inv : Investment)
    → Holds inv q t
    → 0 < k
    → k ≤ q
    → pos 0 ≤ℤ price
    → (inv' : Investment) × (left : ℕ) × (sell now (pos k) price inv ≡ some (inv', none))
      × (inv'.total_invested ≡ pos left)
      × (t * (q - k) ≤ left * q)
      × (left * q < t * (q - k) + q)
sell_shares now k q t price inv h pk hk pp =
    let x = t * k / q in
    let b =
      share_bounds t k q x hk (share-le t k q (omega arith) hk) (mul-div-le (t * k) q)
        (lt-mul-div-succ (t * k) (omega arith)) in
    (
      record inv {
        quantity = pos (q - k);
        total_invested = pos (t - x);
        updated_at = now;
        status = if q - k == 0 then sold else inv.status;
      },
      t - x,
      sell_exact now k q t price inv h pk hk pp,
      refl,
      b.0,
      b.1,
    )

-- A sale of the whole holding leaves no unit and no cost, and marks it sold.
pub sell_all :
    (now q t : ℕ) (price : ℤ) (inv : Investment)
    → Holds inv q t
    → 0 < q
    → pos 0 ≤ℤ price
    → sell now (pos q) price inv
      ≡ some (
        record inv { quantity = pos 0; total_invested = pos 0; updated_at = now; status = sold },
        none,
      )
sell_all now q t price inv h pq pp =
    sell_exact now q q t price inv h pq (omega arith) pp
    ∙ rw (mul-div_cancel t pq, sub_self q, sub_self t)

-- A sale takes its quantity off the holding, and leaves its id.
pub sell-quantity :
    (now : ℕ) (k price : ℤ) (inv : Investment) {inv' : Investment}
    → sell now k price inv ≡ some (inv', none)
    → (inv'.id ≡ inv.id) × (inv'.quantity ≡ sub64 inv.quantity k)
unfolding sell book_sale
sell-quantity now k price inv h =
    elim (Option-cases (div64 (mul64 inv.total_invested k) inv.quantity)) [
      | inl e ↦ ground arith
      | inr (x, e) ↦ ground arith
    ]
