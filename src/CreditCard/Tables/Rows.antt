-- ===== src/CreditCard/Tables/Rows.antt =====
-- What the queries find after an update.
use aureum.Prelude.{String, ◌≡◌, some, List, [], ◌∷◌, arith, eq_iff}
use aureum.CreditCard.Card.{CreditCard}
use aureum.CreditCard.Invoice.{Invoice}
use aureum.CreditCard.Tables.{
  find_card, set_card, update_card, find_invoice, set_invoice, update_invoice,
}

-- The row that a query finds has the id and the owner that it asks for.
pub find_card-ids :
    (id user_id : String) (rs : List CreditCard) {r : CreditCard}
    → find_card id user_id rs ≡ some r
    → (r.id ≡ id) × (r.user_id ≡ user_id)
unfolding find_card
find_card-ids id user_id [] h = cc
find_card-ids id user_id (r ∷ rs) {r = s} h =
    ground (arith, eq_iff r.id id, eq_iff r.user_id user_id, find_card-ids id user_id rs {r = s})

pub find_invoice-ids :
    (id user_id : String) (rs : List Invoice) {r : Invoice}
    → find_invoice id user_id rs ≡ some r
    → (r.id ≡ id) × (r.user_id ≡ user_id)
unfolding find_invoice
find_invoice-ids id user_id [] h = cc
find_invoice-ids id user_id (r ∷ rs) {r = s} h =
    ground (arith, eq_iff r.id id, eq_iff r.user_id user_id, find_invoice-ids id user_id rs {r = s})

-- After an update of the row that a query finds, it finds the row with the new columns.
pub find_card-update_card :
    (id user_id : String) (c : CreditCard) (rs : List CreditCard) {r : CreditCard}
    → c.id ≡ id
    → find_card id user_id rs ≡ some r
    → find_card id user_id (update_card c rs) ≡ some (set_card c r)
unfolding find_card update_card
find_card-update_card id user_id c [] e h = cc
find_card-update_card id user_id c (r ∷ rs) {r = s} e h =
    ground (arith, eq_iff r.id id, find_card-update_card id user_id c rs {r = s})

pub find_invoice-update_invoice :
    (id user_id : String) (i : Invoice) (rs : List Invoice) {r : Invoice}
    → i.id ≡ id
    → find_invoice id user_id rs ≡ some r
    → find_invoice id user_id (update_invoice i rs) ≡ some (set_invoice i r)
unfolding find_invoice update_invoice
find_invoice-update_invoice id user_id i [] e h = cc
find_invoice-update_invoice id user_id i (r ∷ rs) {r = s} e h =
    ground (arith, eq_iff r.id id, find_invoice-update_invoice id user_id i rs {r = s})
