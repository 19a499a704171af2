-- ===== src/Report/Events.antt =====
-- apps/report-svc/internal/domain/events.go, with the functions of internal/application/projectors.go
-- that read the payload of an event.
use aureum.Prelude.{
  String, Bytes, length, take, leb, Option, none, some, List, [], ◌∷◌, if◌then◌else◌,
}
use aureum.Prelude.Dict.{lookup}
use aureum.Prelude.Int.{ℤ, pos}

-- `EventType`, a string type: `other_type` is any text that no constant names.
pub data EventType : Type 0 where
  income_created income_updated income_deleted : EventType
  fixed_expense_created fixed_expense_updated fixed_expense_deleted : EventType
  variable_expense_created variable_expense_updated variable_expense_deleted : EventType
  budget_created budget_updated budget_deleted : EventType
  investment_created investment_updated investment_deleted : EventType
  portfolio_created portfolio_updated : EventType
  debt_created debt_updated debt_deleted : EventType
  credit_card_created credit_card_updated credit_card_deleted : EventType
  account_created account_updated account_deleted goal_created goal_updated : EventType
  other_type : String → EventType

-- What an interface{} holds, by its dynamic type: `other_value` is a value of any other type, such as
-- the float64 that `json.Unmarshal` makes of every number.
pub data Value : Type 0 where
  text : Bytes → Value
  int64 : ℤ → Value
  int : ℤ → Value
  other_value : Value

pub record ReportEvent : Type 0 where
  pub event_type : EventType
  pub entity_id : String
  pub user_id : String
  pub payload : List (String × Value)
  pub timestamp : ℤ

-- `payload[key].(int64)` and `payload[key].(string)`
abbrev pub as_int64 : Option Value → Option ℤ
as_int64 (some (int64 n)) = some n
as_int64 v = none

abbrev pub as_text : Option Value → Option Bytes
as_text (some (text s)) = some s
as_text v = none

-- `extractAmount`
unfoldable pub extract_amount : ReportEvent → ℤ
extract_amount event = elim (as_int64 (lookup "received_amount" event.payload)) [
  | some amt ↦ amt
  | none ↦ elim (as_int64 (lookup "paid_amount" event.payload)) [
    | some amt ↦ amt
    | none ↦ elim (as_int64 (lookup "amount" event.payload)) [ some amt ↦ amt | none ↦ pos 0 ]
  ]
]

-- "uncategorized"
abbrev pub uncategorized : Bytes
uncategorized =
    b'u' ∷ b'n' ∷ b'c' ∷ b'a' ∷ b't' ∷ b'e' ∷ b'g' ∷ b'o' ∷ b'r' ∷ b'i' ∷ b'z' ∷ b'e' ∷ b'd' ∷ []

-- `extractCategory`
unfoldable pub extract_category : ReportEvent → Bytes
extract_category event = elim (as_text (lookup "category" event.payload)) [
  | some cat ↦ cat
  | none ↦ uncategorized
]

-- What `fmt.Sscanf` with "%04d-%02d" leaves in the year and the month, from what they were.
abbrev pub Scan : Type 0
Scan = Bytes → ℤ × ℤ → ℤ × ℤ

scan_field : Scan → Option Bytes → ℤ × ℤ → ℤ × ℤ
scan_field scan none period = period
scan_field scan (some s) period = if leb 7 (length s) then scan (take 7 s) period else period

-- `extractYearMonth`, with the year and the month of the clock.
unfoldable pub extract_year_month : Scan → ℤ × ℤ → ReportEvent → ℤ × ℤ
unfolding scan_field
extract_year_month scan now event =
    let received = scan_field scan (as_text (lookup "received_date" event.payload)) now in
    let paid = scan_field scan (as_text (lookup "payment_date" event.payload)) received in
    scan_field scan (as_text (lookup "date" event.payload)) paid
