-- ===== src/CreditCard/Invoice.antt =====
-- apps/creditcard-svc/internal/domain/invoice.go: the invoice, its payments and its status.
-- Times are numbers; `now` is what `time.Now()` returns in the call.
pub mod Payments
pub mod Status
use aureum.Prelude.{
  ℕ, String, Bool, true, false, not, Option, none, some, List, [], ◌∷◌, str_eq, if◌then◌else◌,
  Method, contains_by, Bytes, is_nil, is_empty, Result, ok, guards,
}
use aureum.Prelude.Int.{ℤ, pos, leb_ℤ, ltb_ℤ, add64, sub64}
use aureum.CreditCard.Month.{is_valid_month}
use aureum.CreditCard.Errors.{
  Err, missing_field, invalid_month, negative_amount, invalid_status, status_transition,
  invoice_not_open, invoice_already_paid, payment_exceeds_amount,
}

-- `InvoiceStatus`, a string type: `opened` is "open", and `other` any text that no constant names.
pub data InvoiceStatus : Type 0 where
  opened closed paid overdue : InvoiceStatus
  other : String → InvoiceStatus

-- `InvoiceStatus.Valid`
unfoldable pub valid : InvoiceStatus → Bool
valid (other s) = false
valid st = true

-- `==` on `InvoiceStatus`
unfoldable pub same : InvoiceStatus → InvoiceStatus → Bool
same opened opened = true
same closed closed = true
same paid paid = true
same overdue overdue = true
same (other s) (other t) = str_eq s t
same s t = false

pub record Invoice : Type 0 where
  pub id : String
  pub credit_card_id : String
  pub user_id : String
  pub reference_month : Bytes
  pub total_amount : ℤ  -- int64
  pub paid_amount : ℤ  -- int64
  pub status : InvoiceStatus
  pub closing_date : Bytes
  pub due_date : Bytes
  pub created_at : ℕ
  pub updated_at : ℕ
  pub deleted_at : Option ℕ

pub record CreateInvoiceInput : Type 0 where
  pub credit_card_id : String
  pub user_id : String
  pub reference_month : Bytes
  pub closing_date : Bytes
  pub due_date : Bytes

-- The guards of `NewInvoice`, each with the error that it returns.
invoice_guards : CreateInvoiceInput → List (Bool × Err)
invoice_guards input =
    (is_empty input.credit_card_id, missing_field)
    ∷ (is_empty input.user_id, missing_field)
    ∷ (is_nil input.reference_month, missing_field)
    ∷ (not (is_valid_month input.reference_month), invalid_month)
    ∷ (is_nil input.closing_date, missing_field)
    ∷ (is_nil input.due_date, missing_field)
    ∷ []

-- The invoice that it returns past them.
fresh_invoice : ℕ → CreateInvoiceInput → Invoice
fresh_invoice now input = record {
  id = "";
  credit_card_id = input.credit_card_id;
  user_id = input.user_id;
  reference_month = input.reference_month;
  total_amount = pos 0;
  paid_amount = pos 0;
  status = opened;
  closing_date = input.closing_date;
  due_date = input.due_date;
  created_at = now;
  updated_at = now;
  deleted_at = none;
}

-- `NewInvoice`. The id is set by the caller, and is empty until then.
unfoldable pub new_invoice : ℕ → CreateInvoiceInput → Result Err Invoice
unfolding invoice_guards fresh_invoice
new_invoice now input = guards (invoice_guards input) (ok (fresh_invoice now input))

-- `Invoice.AddTransactionAmount`
unfoldable pub add_transaction_amount : ℕ → ℤ → Method Invoice Err
unfolding same
add_transaction_amount now amount inv =
    if not (same inv.status opened)
    then (inv, some invoice_not_open)
    else if leb_ℤ amount (pos 0)
    then (inv, some negative_amount)
    else (record inv { total_amount = add64 inv.total_amount amount; updated_at = now }, none)

-- The last lines of `Pay`: the payment is booked, and an invoice paid in full changes its status.
settle : ℕ → ℤ → Invoice → Invoice
settle now amount inv =
    let booked = record inv { paid_amount = add64 inv.paid_amount amount; updated_at = now } in
    if leb_ℤ booked.total_amount booked.paid_amount then record booked { status = paid } else booked

-- `Invoice.Pay`
unfoldable pub pay : ℕ → ℤ → Method Invoice Err
unfolding same settle
pay now amount inv =
    if same inv.status paid
    then (inv, some invoice_already_paid)
    else if leb_ℤ amount (pos 0)
    then (inv, some negative_amount)
    else if ltb_ℤ (sub64 inv.total_amount inv.paid_amount) amount
    then (inv, some payment_exceeds_amount)
    else (settle now amount inv, none)

-- The map `allowed` of `TransitionStatus`.
allowed : InvoiceStatus → Option (List InvoiceStatus)
allowed opened = some (closed ∷ overdue ∷ [])
allowed closed = some (overdue ∷ paid ∷ [])
allowed paid = some []
allowed overdue = some (closed ∷ paid ∷ [])
allowed (other s) = none

-- `Invoice.TransitionStatus`
unfoldable pub transition_status : ℕ → InvoiceStatus → Method Invoice Err
unfolding valid same allowed
transition_status now new inv =
    if not (valid new) then (inv, some invalid_status) else elim (allowed inv.status) [
      | none ↦ (inv, some invalid_status)
      | some transitions ↦
          if contains_by same new transitions
          then (record inv { status = new; updated_at = now }, none)
          else (inv, some status_transition)
    ]
