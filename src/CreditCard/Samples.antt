-- ===== src/CreditCard/Samples.antt =====
-- The card and the invoice of the tests.
use aureum.Prelude.{true, none, [], ◌∷◌, Bytes}
use aureum.Prelude.Int.{pos}
use aureum.CreditCard.Card.{CreditCard, visa, credit}
use aureum.CreditCard.Invoice.{Invoice, closed}

abbrev pub card : CreditCard
card = record {
  id = "c1";
  user_id = "u1";
  name = "Blue";
  brand = visa;
  card_type = credit;
  last_four_digits = "1234";
  closing_day = pos 5;
  due_day = pos 15;
  credit_limit = pos 1000;
  available_credit = pos 300;
  active = true;
  created_at = 1;
  updated_at = 1;
  deleted_at = none;
}

abbrev pub december : Bytes
december = b'2' ∷ b'0' ∷ b'2' ∷ b'5' ∷ b'-' ∷ b'1' ∷ b'2' ∷ []

abbrev pub invoice : Invoice
invoice = record {
  id = "i1";
  credit_card_id = "c1";
  user_id = "u1";
  reference_month = december;
  total_amount = pos 600;
  paid_amount = pos 100;
  status = closed;
  closing_date = december;
  due_date = december;
  created_at = 1;
  updated_at = 1;
  deleted_at = none;
}
