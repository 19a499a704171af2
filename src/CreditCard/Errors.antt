-- ===== src/CreditCard/Errors.antt =====
-- apps/creditcard-svc/internal/domain/errors.go. An error wrapped by `fmt.Errorf("...%w", e)` is
-- the `e` that `errors.Is` finds in it. `database` is any error of the database driver.
pub data Err : Type 0 where
  not_found negative_amount invalid_day invalid_card_brand invalid_card_type invalid_status : Err
  invalid_enum missing_field invalid_date invalid_amount status_transition access_denied : Err
  credit_exceeded invalid_month invalid_invoice_status validation invoice_not_open : Err
  invoice_already_paid payment_exceeds_amount database : Err
