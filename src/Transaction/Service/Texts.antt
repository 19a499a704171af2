-- ===== src/Transaction/Service/Texts.antt =====
-- The conversions of apps/transaction-svc/internal/application/dto.go from the texts of a request to
-- the types of the domain, the conversions `string(...)` back, and the keys of the cache.
pub mod Keys
pub mod Round
use Prim.Native.String.{◌++◌}
use aureum.Prelude.{
  String, ◌≡◌, refl, Bool, true, ◌↔◌, str_eq, if◌then◌else◌, Result, ok, err, arith, eq_iff,
}
use aureum.Transaction.Errors.{Err, invalid_status, invalid_enum}
use aureum.Transaction.Types.{
  TransactionStatus, PaymentMethod, ExpenseType, IncomeType, pending, completed, cancelled, unknown,
  credit_card, debit_card, cash, bank_transfer, pix, no_method, essential, discretionary,
  occasional, emergency, no_expense, salary, freelance, investment, business, refund, no_income,
  status_is_empty, valid_status, valid_method, valid_expense_type, valid_income_type,
}

-- `toDomainStatus`
unfoldable pub to_domain_status : String → Result Err TransactionStatus
to_domain_status s =
    if str_eq s "pending"
    then ok pending
    else if str_eq s "completed"
    then ok completed
    else if str_eq s "cancelled"
    then ok cancelled
    else err invalid_status

-- `toDomainIncomeType`
unfoldable pub to_domain_income_type : String → Result Err IncomeType
to_domain_income_type t =
    if str_eq t "salary"
    then ok salary
    else if str_eq t "freelance"
    then ok freelance
    else if str_eq t "investment"
    then ok investment
    else if str_eq t "business"
    then ok business
    else if str_eq t "refund"
    then ok refund
    else if str_eq t "other"
    then ok IncomeType.other
    else err invalid_enum

-- `toDomainPaymentMethod`
unfoldable pub to_domain_payment_method : String → Result Err PaymentMethod
to_domain_payment_method pm =
    if str_eq pm "credit_card"
    then ok credit_card
    else if str_eq pm "debit_card"
    then ok debit_card
    else if str_eq pm "cash"
    then ok cash
    else if str_eq pm "bank_transfer"
    then ok bank_transfer
    else if str_eq pm "pix"
    then ok pix
    else if str_eq pm "other"
    then ok PaymentMethod.other
    else err invalid_enum

-- `toDomainExpenseType`
unfoldable pub to_domain_expense_type : String → Result Err ExpenseType
to_domain_expense_type et =
    if str_eq et "essential"
    then ok essential
    else if str_eq et "discretionary"
    then ok discretionary
    else if str_eq et "occasional"
    then ok occasional
    else if str_eq et "emergency"
    then ok emergency
    else if str_eq et "other"
    then ok ExpenseType.other
    else err invalid_enum

-- `string(...)` of each: the texts of the constants of internal/domain.
unfoldable pub status_text : TransactionStatus → String
status_text pending = "pending"
status_text completed = "completed"
status_text cancelled = "cancelled"
status_text (unknown s) = s

unfoldable pub income_type_text : IncomeType → String
income_type_text salary = "salary"
income_type_text freelance = "freelance"
income_type_text investment = "investment"
income_type_text business = "business"
income_type_text refund = "refund"
income_type_text IncomeType.other = "other"
income_type_text (no_income s) = s

unfoldable pub payment_method_text : PaymentMethod → String
payment_method_text credit_card = "credit_card"
payment_method_text debit_card = "debit_card"
payment_method_text cash = "cash"
payment_method_text bank_transfer = "bank_transfer"
payment_method_text pix = "pix"
payment_method_text PaymentMethod.other = "other"
payment_method_text (no_method s) = s

unfoldable pub expense_type_text : ExpenseType → String
expense_type_text essential = "essential"
expense_type_text discretionary = "discretionary"
expense_type_text occasional = "occasional"
expense_type_text emergency = "emergency"
expense_type_text ExpenseType.other = "other"
expense_type_text (no_expense s) = s

-- `if status == "" { status = domain.StatusPending }`
abbrev pub or_pending : TransactionStatus → TransactionStatus
or_pending status = if status_is_empty status then pending else status

-- `cacheKey` and `cacheKeyForUser`
unfoldable pub cache_key : String → String → String
cache_key prefix id = "txn:" ++ prefix ++ ":" ++ id

unfoldable pub cache_key_for_user : String → String → String → String
cache_key_for_user prefix id user_id = "txn:" ++ prefix ++ ":" ++ user_id ++ ":" ++ id
