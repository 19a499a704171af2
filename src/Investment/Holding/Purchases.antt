-- ===== src/Investment/Holding/Purchases.antt =====
-- What a purchase does to a holding.
use aureum.Prelude.{
  ℕ, ◌+◌, ◌-◌, ◌*◌, ◌/◌, ◌^◌, ◌≤◌, ◌<◌, ◌≡◌, ◌≢◌, ◌↔◌, refl, none, some, arith, Option-cases, inl,
  inr,
}
use aureum.Prelude.Int.{
  ℤ, pos, ◌+ℤ◌, mul64-pos, div64-pos, add64_exact, add64, div64, mul64, eq_of_parts,
}
use aureum.Investment.Holding.{Investment, active, update_average_price}
use aureum.Investment.Holding.Sales.{Holds}

add64-pos : (a b : ℕ) → a + b ≤ 2 ^ 63 - 1 → add64 (pos a) (pos b) ≡ pos (a + b)
unfolding ◌+ℤ◌
add64-pos a b h = ground (arith, add64_exact (pos a) (pos b))

-- A purchase of b units at p cents adds to the quantity and to the cost, and the average price is
-- the new cost over the new quantity, rounded down.
update_average_price_exact :
    (now b p q t : ℕ) (inv : Investment)
    → Holds inv q t
    → 0 < b
    → q + b ≤ 2 ^ 63 - 1
    → t + b * p ≤ 2 ^ 63 - 1
    → update_average_price now (pos b) (pos p) inv
      ≡ some (record inv {
        average_price = pos ((t + b * p) / (q + b));
        quantity = pos (q + b);
        total_invested = pos (t + b * p);
        updated_at = now;
      })
unfolding update_average_price
update_average_price_exact now b p q t inv h pb hq ht = ground (
  arith,
  mul64-pos b p (omega arith),
  add64-pos t (b * p) ht,
  add64-pos q b hq,
  div64-pos (t + b * p) (q + b) (omega arith) ht,
)

-- A purchase for a holding that is sold or cancelled is booked, and leaves the holding so: it owns
-- units and does not count as active.
pub update_average_price_inactive :
    (now b p q t : ℕ) (inv : Investment)
    → Holds inv q t
    → inv.status ≢ active
    → 0 < b
    → q + b ≤ 2 ^ 63 - 1
    → t + b * p ≤ 2 ^ 63 - 1
    → (inv' : Investment) × (update_average_price now (pos b) (pos p) inv ≡ some inv')
      × (inv'.status ≢ active)
      × (inv'.quantity ≡ pos (q + b))
update_average_price_inactive now b p q t inv h st pb hq ht = (
  record inv {
    average_price = pos ((t + b * p) / (q + b));
    quantity = pos (q + b);
    total_invested = pos (t + b * p);
    updated_at = now;
  },
  update_average_price_exact now b p q t inv h pb hq ht,
  st,
  refl,
)

-- A purchase into a quantity that becomes 0 divides by zero.
update_average_price_panics :
    (now : ℕ) (b p : ℤ) (inv : Investment)
    → (update_average_price now b p inv ≡ none) ↔ (add64 inv.quantity b ≡ pos 0)
unfolding update_average_price div64
update_average_price_panics now b p inv = ground (arith, eq_of_parts (add64 inv.quantity b) (pos 0))

-- A purchase adds its quantity to the holding, and leaves its id.
pub update_average_price-quantity :
    (now : ℕ) (b p : ℤ) (inv : Investment) {inv' : Investment}
    → update_average_price now b p inv ≡ some inv'
    → (inv'.id ≡ inv.id) × (inv'.quantity ≡ add64 inv.quantity b)
unfolding update_average_price
update_average_price-quantity now b p inv h =
    elim (Option-cases (div64 (add64 inv.total_invested (mul64 b p)) (add64 inv.quantity b))) [
      | inl e ↦ ground arith
      | inr (x, e) ↦ ground arith
    ]
