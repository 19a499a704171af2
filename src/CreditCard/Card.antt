-- ===== src/CreditCard/Card.antt =====
-- apps/creditcard-svc/internal/domain/credit_card.go: the card, its limit and its credit.
pub mod Limits
use aureum.Prelude.{
  ℕ, String, Bool, true, false, not, ◌&&◌, ◌||◌, Option, none, some, List, str_eq, if◌then◌else◌,
  is_empty, Result, ok, guards, Method, modify, fail_if, when_some, ◌>>◌, statements, [], ◌∷◌,
}
use aureum.Prelude.Int.{ℤ, pos, ltb_ℤ, add64, sub64}
use aureum.CreditCard.Errors.{
  Err, missing_field, invalid_card_brand, invalid_card_type, invalid_day, negative_amount,
  access_denied,
}

-- `CardBrand`, a string type: `unlisted` is any text that no constant names, the empty one included.
pub data CardBrand : Type 0 where
  visa mastercard amex elo hipercard diners other : CardBrand
  unlisted : String → CardBrand

-- `CardType`, a string type, with the same reading of `untyped`.
pub data CardType : Type 0 where
  credit debit multiple : CardType
  untyped : String → CardType

-- `CardBrand.Valid`
unfoldable pub valid_brand : CardBrand → Bool
valid_brand (unlisted s) = false
valid_brand b = true

-- `CardType.Valid`
unfoldable pub valid_type : CardType → Bool
valid_type (untyped s) = false
valid_type t = true

-- `brand == ""`
abbrev brand_is_empty : CardBrand → Bool
brand_is_empty (unlisted s) = is_empty s
brand_is_empty b = false

-- `cardType == ""`
abbrev type_is_empty : CardType → Bool
type_is_empty (untyped s) = is_empty s
type_is_empty t = false

pub record CreditCard : Type 0 where
  pub id : String
  pub user_id : String
  pub name : String
  pub brand : CardBrand
  pub card_type : CardType
  pub last_four_digits : String
  pub closing_day : ℤ  -- int
  pub due_day : ℤ  -- int
  pub credit_limit : ℤ  -- int64
  pub available_credit : ℤ  -- int64
  pub active : Bool
  pub created_at : ℕ
  pub updated_at : ℕ
  pub deleted_at : Option ℕ

pub record CreateCreditCardInput : Type 0 where
  pub user_id : String
  pub name : String
  pub brand : CardBrand
  pub card_type : CardType
  pub last_four_digits : String
  pub closing_day : ℤ
  pub due_day : ℤ
  pub credit_limit : ℤ

pub record UpdateCreditCardInput : Type 0 where
  pub id : String
  pub user_id : String
  pub name : Option String
  pub closing_day : Option ℤ
  pub due_day : Option ℤ
  pub credit_limit : Option ℤ
  pub active : Option Bool

-- `day < 1 || day > 31`
abbrev bad_day : ℤ → Bool
bad_day d = ltb_ℤ d (pos 1) || ltb_ℤ (pos 31) d

-- The guards of `NewCreditCard`, each with the error that it returns.
card_guards : CreateCreditCardInput → List (Bool × Err)
unfolding valid_brand valid_type
card_guards input =
    (is_empty input.user_id, missing_field)
    ∷ (is_empty input.name, missing_field)
    ∷ (brand_is_empty input.brand, missing_field)
    ∷ (not (valid_brand input.brand), invalid_card_brand)
    ∷ (type_is_empty input.card_type, missing_field)
    ∷ (not (valid_type input.card_type), invalid_card_type)
    ∷ (is_empty input.last_four_digits, missing_field)
    ∷ (bad_day input.closing_day, invalid_day)
    ∷ (bad_day input.due_day, invalid_day)
    ∷ (ltb_ℤ input.credit_limit (pos 0), negative_amount)
    ∷ []

-- The card that it returns past them.
fresh_card : ℕ → CreateCreditCardInput → CreditCard
fresh_card now input = record {
  id = "";
  user_id = input.user_id;
  name = input.name;
  brand = input.brand;
  card_type = input.card_type;
  last_four_digits = input.last_four_digits;
  closing_day = input.closing_day;
  due_day = input.due_day;
  credit_limit = input.credit_limit;
  available_credit = input.credit_limit;
  active = true;
  created_at = now;
  updated_at = now;
  deleted_at = none;
}

-- `NewCreditCard`. The id is set by the caller, and is empty until then.
unfoldable pub new_credit_card : ℕ → CreateCreditCardInput → Result Err CreditCard
unfolding card_guards fresh_card
new_credit_card now input = guards (card_guards input) (ok (fresh_card now input))

-- The statements of `ApplyUpdate`, one for each field.
check_owner : String → Method CreditCard Err
check_owner user_id c =
    fail_if (not (is_empty user_id) && not (str_eq user_id c.user_id)) access_denied c

set_name : String → Method CreditCard Err
set_name v = fail_if (is_empty v) missing_field >> modify (λ c. record c { name = v })

set_closing_day : ℤ → Method CreditCard Err
set_closing_day v = fail_if (bad_day v) invalid_day >> modify (λ c. record c { closing_day = v })

set_due_day : ℤ → Method CreditCard Err
set_due_day v = fail_if (bad_day v) invalid_day >> modify (λ c. record c { due_day = v })

set_credit_limit : ℤ → Method CreditCard Err
set_credit_limit v =
    fail_if (ltb_ℤ v (pos 0)) negative_amount
    >> modify (λ c. record c {
      credit_limit = v;
      available_credit = add64 c.available_credit (sub64 v c.credit_limit);
    })

set_active : Bool → Method CreditCard Err
set_active v = modify (λ c. record c { active = v })

set_updated : ℕ → Method CreditCard Err
set_updated now = modify (λ c. record c { updated_at = now })

update_statements : ℕ → UpdateCreditCardInput → List (Method CreditCard Err)
update_statements now input =
    check_owner input.user_id
    ∷ when_some input.name set_name
    ∷ when_some input.closing_day set_closing_day
    ∷ when_some input.due_day set_due_day
    ∷ when_some input.credit_limit set_credit_limit
    ∷ when_some input.active set_active
    ∷ set_updated now
    ∷ []

-- `CreditCard.ApplyUpdate`
unfoldable pub apply_update : ℕ → UpdateCreditCardInput → Method CreditCard Err
unfolding update_statements check_owner set_name set_closing_day set_due_day set_credit_limit
    set_active set_updated
apply_update now input = statements (update_statements now input)
