-- ===== src/CreditCard/Month.antt =====
-- Months as texts "YYYY-MM": `isValidMonth` of apps/creditcard-svc/internal/domain/invoice.go, and
-- `nextReferenceMonth` of apps/creditcard-svc/internal/application/service.go with what it uses of
-- the standard library's `time`: `Parse` and `Format` at the layout "2006-01", and `AddDate`.
pub mod Calendar
use aureum.Prelude.{
  ℕ, ◌+◌, ◌-◌, ◌*◌, ◌/◌, ◌%◌, Bool, true, false, not, ◌&&◌, ◌||◌, Option, none, some, List, [], ◌∷◌,
  ◌++◌, ltb, leb, ◌==◌, if◌then◌else◌, Bytes, length, get_or, slice, bytes_ltb, is_digit,
}

-- The texts that `isValidMonth` compares with.
abbrev year_2000 : Bytes
year_2000 = b'2' ∷ b'0' ∷ b'0' ∷ b'0' ∷ []

abbrev year_2100 : Bytes
year_2100 = b'2' ∷ b'1' ∷ b'0' ∷ b'0' ∷ []

abbrev month_01 : Bytes
month_01 = b'0' ∷ b'1' ∷ []

abbrev month_12 : Bytes
month_12 = b'1' ∷ b'2' ∷ []

-- `isValidMonth`
unfoldable pub is_valid_month : Bytes → Bool
is_valid_month month =
    let year = slice month 0 4 in
    let m = slice month 5 7 in
    if not (length month == 7)
    then false
    else if not (get_or month 4 0 == b'-')
    then false
    else if bytes_ltb year year_2000 || bytes_ltb year_2100 year
    then false
    else if not (is_digit (get_or m 0 0)) || not (is_digit (get_or m 1 0))
    then false
    else not (bytes_ltb m month_01 || bytes_ltb month_12 m)

-- The number of decimal digits in a text of fixed length.
number : ℕ → Bytes → ℕ
number acc [] = acc
number acc (c ∷ cs) = number (acc * 10 + (c - b'0')) cs

all_digits : Bytes → Bool
all_digits [] = true
all_digits (c ∷ cs) = is_digit c && all_digits cs

-- `time.Parse("2006-01", s)`: four digits, a dash and a month of two digits, and nothing else.
unfoldable pub parse_month : Bytes → Option (ℕ × ℕ)
unfolding number all_digits
parse_month s =
    let year = slice s 0 4 in
    let month = slice s 5 7 in
    let m = number 0 month in
    if length s == 7 && get_or s 4 0 == b'-' && all_digits year && all_digits month
    then (if leb 1 m && leb m 12 then some (number 0 year, m) else none)
    else none

abbrev digit : ℕ → ℕ
digit n = b'0' + n % 10

-- `%02d` of a number below 100.
unfoldable pub two_digits : ℕ → Bytes
two_digits n = digit (n / 10) ∷ digit n ∷ []

four_digits : ℕ → Bytes
four_digits n = digit (n / 1000) ∷ digit (n / 100) ∷ digit (n / 10) ∷ digit n ∷ []

-- `Format("2006-01")` of a year up to 99999.
unfoldable pub format_month : ℕ → ℕ → Bytes
unfolding two_digits four_digits
format_month y m =
    (if ltb y 10000 then four_digits y else digit (y / 10000) ∷ four_digits y)
    ++ (b'-' ∷ two_digits m)

-- `AddDate(0, 1, 0)` on the first day of a month.
unfoldable pub add_month : ℕ × ℕ → ℕ × ℕ
add_month (y, m) = if m == 12 then (y + 1, 1) else (y, m + 1)

-- `nextReferenceMonth`
unfoldable pub next_reference_month : Bytes → Bytes
unfolding parse_month format_month add_month
next_reference_month current = elim (parse_month current) [
  | none ↦ current
  | some t ↦ format_month (add_month t).0 (add_month t).1
]
