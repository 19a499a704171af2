-- ===== src/CreditCard/Month/Calendar.antt =====
-- The texts of months against the calendar.
use aureum.Prelude.{
  ℕ, ◌+◌, ◌*◌, ◌≤◌, ◌<◌, ◌≡◌, ◌↔◌, true, some, [], ◌∷◌, ◌++◌, arith, Bytes, length,
}
use aureum.CreditCard.Month.{
  is_valid_month, parse_month, format_month, next_reference_month, add_month, all_digits, number,
  four_digits, two_digits,
}

-- A year and a month that a text of seven bytes can name.
abbrev pub IsMonth : ℕ × ℕ → Type 0
IsMonth t = (t.0 ≤ 9999) × (1 ≤ t.1) × (t.1 ≤ 12)

-- Parsing what was printed gives the month back.
pub parse_month-format_month :
    (y m : ℕ) → IsMonth (y, m) → parse_month (format_month y m) ≡ some (y, m)
unfolding parse_month format_month
parse_month-format_month y m h = ground arith

four_digits-number :
    (a b c d : ℕ)
    → all_digits (a ∷ b ∷ c ∷ d ∷ []) ≡ true
    → (four_digits (number 0 (a ∷ b ∷ c ∷ d ∷ [])) ≡ a ∷ b ∷ c ∷ d ∷ [])
      × (number 0 (a ∷ b ∷ c ∷ d ∷ []) ≤ 9999)
unfolding four_digits number all_digits
four_digits-number a b c d h = ground arith

two_digits-number :
    (a b : ℕ) → all_digits (a ∷ b ∷ []) ≡ true → two_digits (number 0 (a ∷ b ∷ [])) ≡ a ∷ b ∷ []
unfolding two_digits number all_digits
two_digits-number a b h = ground arith

parse_month-length : (s : Bytes) {t : ℕ × ℕ} → parse_month s ≡ some t → length s ≡ 7
unfolding parse_month
parse_month-length s h = ground arith

-- What a text of the length of a month says when it parses.
parse_month-fields :
    (a b c d e f g : ℕ) {t : ℕ × ℕ}
    → parse_month (a ∷ b ∷ c ∷ d ∷ e ∷ f ∷ g ∷ []) ≡ some t
    → (e ≡ b'-')
      × (all_digits (a ∷ b ∷ c ∷ d ∷ []) ≡ true)
      × (all_digits (f ∷ g ∷ []) ≡ true)
      × (t.0 ≡ number 0 (a ∷ b ∷ c ∷ d ∷ []))
      × (t.1 ≡ number 0 (f ∷ g ∷ []))
      × (1 ≤ t.1)
      × (t.1 ≤ 12)
unfolding parse_month
parse_month-fields a b c d e f g h = ground arith

format_month-small :
    (y m : ℕ) → y ≤ 9999 → format_month y m ≡ four_digits y ++ (b'-' ∷ two_digits m)
unfolding format_month
format_month-small y m h = ground arith

-- Printing what was parsed gives the text back, and the month is one of the calendar.
pub format_month-parse_month :
    (s : Bytes) {t : ℕ × ℕ} → parse_month s ≡ some t → (format_month t.0 t.1 ≡ s) × IsMonth t
format_month-parse_month (a ∷ b ∷ c ∷ d ∷ e ∷ f ∷ g ∷ []) {t} h = ground (
  arith,
  parse_month-fields a b c d e f g h,
  four_digits-number a b c d,
  two_digits-number f g,
  format_month-small t.0 t.1,
)
format_month-parse_month s h = absurd (omega (arith, parse_month-length s h))

-- A printed month is valid exactly from the year 2000 to the year 2100.
is_valid_month-format_month :
    (y m : ℕ)
    → IsMonth (y, m)
    → (is_valid_month (format_month y m) ≡ true) ↔ ((2000 ≤ y) × (y ≤ 2100))
unfolding is_valid_month format_month
is_valid_month-format_month y m h = ground arith

-- Months as numbers, in the order of the calendar.
abbrev pub month_number : ℕ × ℕ → ℕ
month_number t = t.0 * 12 + t.1

add_month-next : (t : ℕ × ℕ) → IsMonth t → month_number (add_month t) ≡ month_number t + 1
unfolding add_month
add_month-next t h = ground arith

add_month-IsMonth : (t : ℕ × ℕ) → IsMonth t → t.0 < 9999 → IsMonth (add_month t)
unfolding add_month
add_month-IsMonth t h lt = ground arith

-- From a text that names a month before the year 9999, `nextReferenceMonth` gives the text of the
-- month that follows in the calendar.
pub next_reference_month_lem :
    (s : Bytes) (t : ℕ × ℕ)
    → parse_month s ≡ some t
    → t.0 < 9999
    → (u : ℕ × ℕ) × (parse_month (next_reference_month s) ≡ some u)
      × (month_number u ≡ month_number t + 1)
unfolding next_reference_month
next_reference_month_lem s t h lt =
    let m = (format_month-parse_month s h).1 in
    (
      add_month t,
      rw (h, next_reference_month)
          (parse_month-format_month (add_month t).0 (add_month t).1 (add_month-IsMonth t m lt)),
      add_month-next t m,
    )

-- A year that begins with "20" and goes on with any two bytes above '0' is accepted, though they
-- need not be digits; no month follows such a text: `nextReferenceMonth` gives it back.
pub is_valid_month-accepts :
    (c d : ℕ)
    → b'9' < c
    → b'0' < d
    → let s = b'2' ∷ b'0' ∷ c ∷ d ∷ b'-' ∷ b'0' ∷ b'1' ∷ [] in
      (is_valid_month s ≡ true) × (next_reference_month s ≡ s)
unfolding is_valid_month next_reference_month
is_valid_month-accepts c d hc hd = ground arith
