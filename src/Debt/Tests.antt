-- ===== src/Debt/Tests.antt =====
-- The theorems on debts at concrete debts.
use aureum.Prelude.{ℕ, ◌≡◌, refl, none, List, [], ◌∷◌, arith}
use aureum.Prelude.Int.{ℤ, pos, negsuc, ◌+ℤ◌, ◌-ℤ◌, sub64, wrap64}
use aureum.Debt.Account.{Debt, paid_off, settled, apply_payment}
use aureum.Debt.Samples.{debt}
use aureum.Debt.Account.Balance

abbrev settled_debt : Debt
settled_debt = record debt { status = settled }

settled_debt-IsValid : Balance.IsValid settled_debt
settled_debt-IsValid = ground arith

-- The second payment is negative, and the third more than is left.
abbrev payments : List (ℕ × ℤ)
payments = (2, pos 100) ∷ (3, negsuc 4) ∷ (4, pos 501) ∷ (5, pos 500) ∷ (6, pos 1) ∷ []

repay-payments :
    let (sum, d) = Balance.repay payments debt in
    (sum ≡ pos 600) × (d.remaining_amount ≡ pos 0) × (d.status ≡ paid_off)
unfolding Balance.repay apply_payment sub64 wrap64 ◌+ℤ◌ ◌-ℤ◌
repay-payments = (refl, refl, refl)

payment_accepted : (apply_payment 2 (pos 600) debt).1 ≡ none
unfolding apply_payment
payment_accepted = refl
