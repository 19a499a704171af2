-- ===== src/CreditCard/Card/Limits.antt =====
-- The limit of a card, the credit that is left of it, and the credit in use.
use text.Mathlib.TextPositions.{eq_refl}
use aureum.Prelude.{
  ℕ, ◌≡◌, ◌↔◌, refl, Bool, true, false, none, some, arith, is_empty, ok, guards-ok, guards-Pass,
  Maintains, statements-Maintains, when_some-Maintains, String,
}
use aureum.Prelude.Int.{ℤ, pos, ◌+ℤ◌, ◌-ℤ◌, ◌≤ℤ◌, ◌<ℤ◌, IsInt64, add64_exact, sub64_nonneg}
use aureum.CreditCard.Card.{
  CreditCard, CreateCreditCardInput, UpdateCreditCardInput, new_credit_card, apply_update,
  valid_brand, valid_type, check_owner, set_name, set_closing_day, set_due_day, set_credit_limit,
  set_active, set_updated, update_statements, card_guards, fresh_card,
}

-- The credit in use: what the limit exceeds the available credit by.
unfoldable pub used : CreditCard → ℤ
used c = c.credit_limit -ℤ c.available_credit

abbrev pub IsDay : ℤ → Type 0
IsDay d = (pos 1 ≤ℤ d) × (d ≤ℤ pos 31)

-- The days are days of a month, the limit is not negative, and the credit that is available is between
-- zero and the limit, as the table requires.
pub record IsValid (c : CreditCard) : Type 0 where
  pub closing : IsDay c.closing_day
  pub due : IsDay c.due_day
  pub limit_range : IsInt64 c.credit_limit
  pub limit_nonneg : pos 0 ≤ℤ c.credit_limit
  pub available_nonneg : pos 0 ≤ℤ c.available_credit
  pub available_le_limit : c.available_credit ≤ℤ c.credit_limit
  pub used_range : IsInt64 (c.credit_limit -ℤ c.available_credit)

pub record IsAcceptable (i : CreateCreditCardInput) : Type 0 where
  pub has_user : is_empty i.user_id ≡ false
  pub has_name : is_empty i.name ≡ false
  pub known_brand : valid_brand i.brand ≡ true
  pub known_type : valid_type i.card_type ≡ true
  pub has_digits : is_empty i.last_four_digits ≡ false
  pub closing : IsDay i.closing_day
  pub due : IsDay i.due_day
  pub limit_nonneg : pos 0 ≤ℤ i.credit_limit

-- A card is created exactly from an acceptable input.
pub new_credit_card_iff :
    (now : ℕ) (i : CreateCreditCardInput)
    → ((c : CreditCard) × (new_credit_card now i ≡ ok c)) ↔ IsAcceptable i
unfolding new_credit_card
new_credit_card_iff now i = (
  λ (c, h). let p = (guards-ok (card_guards i) (ok (fresh_card now i)) h).0 in ground arith,
  λ a. (fresh_card now i, guards-Pass (card_guards i) (ok (fresh_card now i)) (ground arith)),
)

-- A new card is valid and active, and all of its limit is available.
new_credit_card-IsValid :
    (now : ℕ) (i : CreateCreditCardInput) {c : CreditCard}
    → IsInt64 i.credit_limit
    → new_credit_card now i ≡ ok c
    → IsValid c × (c.active ≡ true) × (used c ≡ pos 0) × (c.credit_limit ≡ i.credit_limit)
unfolding new_credit_card used ◌-ℤ◌
new_credit_card-IsValid now i r h =
    let p = guards-ok (card_guards i) (ok (fresh_card now i)) h in ground arith

-- A request that sets the limit alone.
abbrev pub limit_update : String → String → ℤ → UpdateCreditCardInput
limit_update id user_id v = record {
  id = id;
  user_id = user_id;
  name = none;
  closing_day = none;
  due_day = none;
  credit_limit = some v;
  active = none;
}

-- A valid card with the given credit in use.
abbrev pub Keeps : ℤ → CreditCard → Type 0
Keeps u c = IsValid c × (used c ≡ u)

set_name-Keeps : (u : ℤ) (v : String) → Maintains (Keeps u) (set_name v)
unfolding set_name used
set_name-Keeps u v c k = ground arith

set_closing_day-Keeps : (u v : ℤ) → Maintains (Keeps u) (set_closing_day v)
unfolding set_closing_day used
set_closing_day-Keeps u v c k = ground arith

set_due_day-Keeps : (u v : ℤ) → Maintains (Keeps u) (set_due_day v)
unfolding set_due_day used
set_due_day-Keeps u v c k = ground arith

set_credit_limit-Keeps : (u v : ℤ) → IsInt64 v → u ≤ℤ v → Maintains (Keeps u) (set_credit_limit v)
unfolding set_credit_limit used ◌-ℤ◌ ◌+ℤ◌
set_credit_limit-Keeps u v hv cover c k =
    ground
      (arith, sub64_nonneg v c.credit_limit, add64_exact c.available_credit (v -ℤ c.credit_limit))

set_active-Keeps : (u : ℤ) (v : Bool) → Maintains (Keeps u) (set_active v)
unfolding set_active used
set_active-Keeps u v c k = ground arith

set_updated-Keeps : (u : ℤ) (now : ℕ) → Maintains (Keeps u) (set_updated now)
unfolding set_updated used
set_updated-Keeps u now c k = ground arith

check_owner-Keeps : (u : ℤ) (id : String) → Maintains (Keeps u) (check_owner id)
unfolding check_owner used
check_owner-Keeps u id c k = ground arith

apply_update-Keeps :
    (now : ℕ) (i : UpdateCreditCardInput) (u : ℤ)
    → ((v : ℤ) → i.credit_limit ≡ some v → IsInt64 v × (u ≤ℤ v))
    → Maintains (Keeps u) (apply_update now i)
unfolding apply_update
apply_update-Keeps now i u r =
    let P = Keeps u in
    statements-Maintains P (update_statements now i) (
      check_owner-Keeps u i.user_id,
      (
        when_some-Maintains P i.name set_name (λ v _. set_name-Keeps u v),
        (
          when_some-Maintains P i.closing_day set_closing_day (λ v _. set_closing_day-Keeps u v),
          (
            when_some-Maintains P i.due_day set_due_day (λ v _. set_due_day-Keeps u v),
            (
              when_some-Maintains P i.credit_limit set_credit_limit
                  (λ v e. set_credit_limit-Keeps u v (r v e).0 (r v e).1),
              (
                when_some-Maintains P i.active set_active (λ v _. set_active-Keeps u v),
                (set_updated-Keeps u now, tt),
              ),
            ),
          ),
        ),
      ),
    )

-- Every update, accepted or refused halfway, whose new limit, if it has one, is an int64 and covers the
-- credit in use keeps a valid card valid and the credit in use as it is: a new limit moves the
-- available credit by the same amount.
pub apply_update_keeps :
    (now : ℕ) (i : UpdateCreditCardInput) (c : CreditCard)
    → ((v : ℤ) → i.credit_limit ≡ some v → IsInt64 v × (used c ≤ℤ v))
    → IsValid c
    → IsValid (apply_update now i c).0 × (used (apply_update now i c).0 ≡ used c)
apply_update_keeps now i c r v = apply_update-Keeps now i (used c) r c (v, refl)

-- An owner may lower the limit below the credit in use: the update is accepted and leaves less than
-- no credit available.
pub apply_update_overdraws :
    (now : ℕ) (v : ℤ) (c : CreditCard)
    → IsValid c
    → pos 0 ≤ℤ v
    → v <ℤ used c
    → let (c', e) = apply_update now (limit_update c.id c.user_id v) c in
      (e ≡ none) × (c'.credit_limit ≡ v) × (c'.available_credit <ℤ pos 0)
unfolding apply_update used ◌-ℤ◌ ◌+ℤ◌
apply_update_overdraws now v c h pv lt = ground (
  arith,
  eq_refl c.user_id,
  sub64_nonneg v c.credit_limit,
  add64_exact c.available_credit (v -ℤ c.credit_limit),
)
