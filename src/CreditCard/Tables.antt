-- ===== src/CreditCard/Tables.antt =====
-- apps/creditcard-svc/internal/infrastructure/persistence: the rows of the tables `credit_cards`,
-- `invoices`, `invoice_transactions` and `outbox_events`, with the queries of credit_card_repo.go,
-- invoice_repo.go and the others that payments and purchases make. Dates are kept as the texts that
-- the code reads and writes.
pub mod Rows
use aureum.Prelude.{
  Bytes, bytes_eq, Result, ok, err, ℕ, String, Bool, true, false, ◌&&◌, Option, none, some, List,
  [], ◌∷◌, map, str_eq, if◌then◌else◌, Method, modify, fail_if, ◌>>◌, ◌++◌,
}
use aureum.Prelude.Int.{ℤ}
use aureum.CreditCard.Card.{CreditCard}
use aureum.CreditCard.Invoice.{Invoice, InvoiceStatus}
use aureum.CreditCard.Purchase.{InvoiceTransaction}
use aureum.CreditCard.Errors.{Err, not_found, database}

-- The events of a payment and of a purchase, as the service writes them to the outbox.
pub record InvoicePaid : Type 0 where
  pub entity_id : String
  pub user_id : String
  pub credit_card_id : String
  pub amount : ℤ
  pub paid_amount : ℤ
  pub total_amount : ℤ
  pub status : InvoiceStatus
  pub timestamp : ℕ

pub record TransactionAdded : Type 0 where
  pub entity_id : String
  pub user_id : String
  pub invoice_id : String
  pub credit_card_id : String
  pub description : String
  pub amount : ℤ
  pub category : String
  pub transaction_date : String
  pub installments : ℤ
  pub timestamp : ℕ

pub data CreditCardEvent : Type 0 where
  invoice_paid : InvoicePaid → CreditCardEvent
  transaction_added : TransactionAdded → CreditCardEvent

pub record Tables : Type 0 where
  pub cards : List CreditCard
  pub invoices : List Invoice
  pub transactions : List InvoiceTransaction
  pub events : List CreditCardEvent

-- The result of a `FindByID`, whose query fails or finds a row or none.
unfoldable pub found {ℓ} : {A : Type ℓ} → Bool → Option A → Result Err A
found fails none = if fails then err database else err not_found
found fails (some a) = if fails then err database else ok a

-- `deleted_at IS NULL`
is_live : Option ℕ → Bool
is_live none = true
is_live (some t) = false

-- `WHERE id=$1 AND user_id=$2 AND deleted_at IS NULL`, on the table of cards.
unfoldable pub find_card : String → String → List CreditCard → Option CreditCard
unfolding is_live
find_card id user_id [] = none
find_card id user_id (r ∷ rs) =
    let rest = find_card id user_id rs in
    if str_eq r.id id && str_eq r.user_id user_id && is_live r.deleted_at then some r else rest

-- The columns that the update of a card sets.
abbrev pub set_card : CreditCard → CreditCard → CreditCard
set_card c r = record r {
  name = c.name;
  brand = c.brand;
  card_type = c.card_type;
  last_four_digits = c.last_four_digits;
  closing_day = c.closing_day;
  due_day = c.due_day;
  credit_limit = c.credit_limit;
  available_credit = c.available_credit;
  active = c.active;
  updated_at = c.updated_at;
}

-- `UPDATE credit_cards SET ... WHERE id=$11 AND deleted_at IS NULL`
unfoldable pub update_card : CreditCard → List CreditCard → List CreditCard
unfolding is_live
update_card c [] = []
update_card c (r ∷ rs) =
    (if str_eq r.id c.id && is_live r.deleted_at then set_card c r else r) ∷ update_card c rs

-- The same, on the table of invoices.
unfoldable pub find_invoice : String → String → List Invoice → Option Invoice
unfolding is_live
find_invoice id user_id [] = none
find_invoice id user_id (r ∷ rs) =
    let rest = find_invoice id user_id rs in
    if str_eq r.id id && str_eq r.user_id user_id && is_live r.deleted_at then some r else rest

abbrev pub set_invoice : Invoice → Invoice → Invoice
set_invoice i r = record r {
  total_amount = i.total_amount;
  paid_amount = i.paid_amount;
  status = i.status;
  closing_date = i.closing_date;
  due_date = i.due_date;
  updated_at = i.updated_at;
}

-- `UPDATE invoices SET ... WHERE id=$7 AND deleted_at IS NULL`
unfoldable pub update_invoice : Invoice → List Invoice → List Invoice
unfolding is_live
update_invoice i [] = []
update_invoice i (r ∷ rs) =
    (if str_eq r.id i.id && is_live r.deleted_at then set_invoice i r else r) ∷ update_invoice i rs

-- `WHERE credit_card_id=$1 AND reference_month=$2 AND deleted_at IS NULL`, the first such row.
unfoldable pub find_month : String → Bytes → List Invoice → Option Invoice
unfolding is_live
find_month card_id month [] = none
find_month card_id month (r ∷ rs) =
    let rest = find_month card_id month rs in
    if str_eq r.credit_card_id card_id && bytes_eq r.reference_month month && is_live r.deleted_at
    then some r
    else rest

-- `withTx`: the tables as the body leaves them take effect when it returns no error and the commit goes
-- through, and otherwise the tables of the begin stay.
unfoldable pub with_tx : Bool → Bool → Method Tables Err → Method Tables Err
with_tx begin_fails commit_fails body t =
    if begin_fails then (t, some database) else elim ((body t).1) [
      | some e ↦ (t, some e)
      | none ↦ if commit_fails then (t, some database) else ((body t).0, none)
    ]

-- The statements of a transaction that update a card and append an event, with the calls that fail.
unfoldable pub save_card : Bool → CreditCard → Method Tables Err
save_card fails card =
    fail_if fails database >> modify (λ t. record t { cards = update_card card t.cards })

unfoldable pub save_event : Bool → CreditCardEvent → Method Tables Err
save_event fails event =
    fail_if fails database >> modify (λ t. record t { events = t.events ++ event ∷ [] })
