-- ===== src/Budget/Errors.antt =====
-- apps/budget-svc/internal/domain/errors.go
pub data Err : Type 0 where
  not_found negative_amount invalid_period invalid_status invalid_date missing_field : Err
  invalid_enum status_transition access_denied insufficient_budget invalid_date_range : Err
  category_limit : Err
