-- ===== src/Cookie/Expiry/Reading.antt =====
-- What `parse_cookie_date` of crates/chromulate-cookie/src/date.rs has read when it counts days: a
-- year of at most four digits and one of the twelve months, so the conversion does not panic.
use chromulate.Prelude.{
  ℕ, ◌+◌, ◌*◌, ◌≤◌, ◌<◌, false, Option, none, some, List, [], ◌∷◌, ◌≡◌, inl, inr, ap, ◌∙◌, subst,
  arith, ltb, nat_beq, ◌||◌, ◌==◌, length, All, is_some, Bool-cases, Option-cases,
}
use chromulate.Prelude.Time.{Instant}
use chromulate.Prelude.Text.{
  Text, text_comparable, is_digit, digits_value, to_ascii_lowercase, pieces,
}
use chromulate.Prelude.Lists.{take}
use chromulate.Cache.Date.{Platform, months, position_from, days_from_civil}
use chromulate.Cookie.Expiry.{
  is_delimiter, digit_run, leading_digits, Found, take_time, take_day, take_month, take_year,
  read_token, read_tokens, full_year, date_of, parse_cookie_date,
}
use chromulate.Cookie.Expiry.Range.{days_from_civil_bounds, since_epoch-fits}

digit_run_le : (s : Text) → All (λ c. c ≤ 57) (digit_run s)
unfolding digit_run is_digit
digit_run_le [] = tt
digit_run_le (c ∷ s) = elim (Bool-cases (is_digit c)) [
  | inl h ↦ rw h (ground (arith, h), digit_run_le s)
  | inr h ↦ rw h tt
]

digits_value_le : (s : Text) → All (λ c. c ≤ 57) s → length s ≤ 4 → digits_value 0 s ≤ 9999
unfolding digits_value
digits_value_le [] a h = omega arith
digits_value_le (x ∷ []) a h = omega (arith, a.0)
digits_value_le (x ∷ y ∷ []) a h = omega (arith, a.0, a.1.0)
digits_value_le (x ∷ y ∷ z ∷ []) a h = omega (arith, a.0, a.1.0, a.1.1.0)
digits_value_le (x ∷ y ∷ z ∷ w ∷ []) a h = omega (arith, a.0, a.1.0, a.1.1.0, a.1.1.1.0)
digits_value_le (x ∷ y ∷ z ∷ w ∷ v ∷ s) a h = absurd (omega arith)

leading_digits_le :
    (token : Text) (value len : ℕ)
    → leading_digits token ≡ some (value, len)
    → len ≤ 4
    → value ≤ 9999
unfolding leading_digits
leading_digits_le token value len h small =
    ground (arith, h, digits_value_le (digit_run token) (digit_run_le token))

position_from_bounds :
    (i : ℕ) (t : Text) (names : List Text) (m : ℕ)
    → position_from i t names ≡ some m
    → (i ≤ m) × (m < i + length names)
unfolding position_from
position_from_bounds i t [] m h = absurd (ground (arith, h))
position_from_bounds i t (x ∷ xs) m h = elim (Bool-cases (x == t)) [
  | inl e ↦ let here : i ≡ m = ground (arith, h, e) in (omega arith, omega arith)
  | inr e ↦
      let (a, b) = position_from_bounds (i + 1) t xs m (ground (arith, h, e)) in
      (omega (arith, a), omega (arith, b))
]

abbrev IsMonth : Option ℕ → Type 0
IsMonth none = Unit
IsMonth (some m) = (1 ≤ m) × (m ≤ 12)

abbrev IsYear : Option ℕ → Type 0
IsYear none = Unit
IsYear (some y) = y ≤ 9999

-- What holds of the fields that have been read.
record IsRead (f : Found) : Type 0 where
  month : IsMonth f.month
  year : IsYear f.year

same_dates : (f g : Found) → IsRead f → f.month ≡ g.month → f.year ≡ g.year → IsRead g
same_dates f g v m y = record { month = subst IsMonth m v.month; year = subst IsYear y v.year }

take_time-IsRead : (t : Text) (f g : Found) → IsRead f → take_time t f ≡ some g → IsRead g
unfolding take_time
take_time-IsRead t f g v h = same_dates f g v (ground (arith, h)) (ground (arith, h))

take_month-IsRead : (t : Text) (f g : Found) → IsRead f → take_month t f ≡ some g → IsRead g
unfolding take_month
take_month-IsRead t f g v h = elim (Bool-cases (is_some f.month || ltb (length t) 3)) [
  | inl e ↦ absurd (ground (arith, h, e))
  | inr e ↦ elim (Option-cases (position_from 1 (to_ascii_lowercase (take 3 t)) months)) [
    | inl n ↦ absurd (ground (arith, h, e, n))
    | inr (m, n) ↦
        let (a, b) = position_from_bounds 1 (to_ascii_lowercase (take 3 t)) months m n in
        let same : record f { month = some m } ≡ g = ground (arith, h, e, n) in
        subst IsRead same (record { month = (a, omega (arith, b)); year = v.year })
  ]
]

take_year-IsRead : (t : Text) (f g : Found) → IsRead f → take_year t f ≡ some g → IsRead g
unfolding take_year
take_year-IsRead t f g v h = elim (Bool-cases (is_some f.year)) [
  | inl e ↦ absurd (ground (arith, h, e))
  | inr e ↦ elim (Option-cases (leading_digits t)) [
    | inl n ↦ absurd (ground (arith, h, e, n))
    | inr ((value, len), n) ↦ elim (Bool-cases (nat_beq len 2 || nat_beq len 4)) [
      | inr k ↦ absurd (ground (arith, h, e, n, k))
      | inl k ↦
          let same : record f { year = some value } ≡ g = ground (arith, h, e, n, k) in
          subst IsRead same
            (record { month = v.month; year = leading_digits_le t value len n (ground (arith, k)) })
    ]
  ]
]

take_day-IsRead : (t : Text) (f g : Found) → IsRead f → take_day t f ≡ some g → IsRead g
unfolding take_day
take_day-IsRead t f g v h = same_dates f g v (ground (arith, h)) (ground (arith, h))

read_token-IsRead : (t : Text) (f : Found) → IsRead f → IsRead (read_token t f)
unfolding read_token
read_token-IsRead t f v = elim (Option-cases (take_time t f)) [
  | inr (g, a) ↦ rw (a, read_token) (take_time-IsRead t f g v a)
  | inl a ↦ elim (Option-cases (take_day t f)) [
    | inr (g, b) ↦ rw (a, b, read_token) (take_day-IsRead t f g v b)
    | inl b ↦ elim (Option-cases (take_month t f)) [
      | inr (g, c) ↦ rw (a, b, c, read_token) (take_month-IsRead t f g v c)
      | inl c ↦ elim (Option-cases (take_year t f)) [
        | inr (g, d) ↦ rw (a, b, c, d, read_token) (take_year-IsRead t f g v d)
        | inl d ↦ rw (a, b, c, d, read_token) v
      ]
    ]
  ]
]

read_tokens-IsRead : (ts : List Text) (f : Found) → IsRead f → IsRead (read_tokens ts f)
unfolding read_tokens
read_tokens-IsRead [] f v = v
read_tokens-IsRead (t ∷ ts) f v = read_tokens-IsRead ts (read_token t f) (read_token-IsRead t f v)

full_year_le : (year : ℕ) → year ≤ 9999 → full_year year ≤ 9999
unfolding full_year
full_year_le year h = ground arith

-- The tests that a date has to pass before its days are counted.
record IsDate (time : ℕ × ℕ × ℕ) (day year : ℕ) : Type 0 where
  hour : time.0 ≤ 23
  minute : time.1 ≤ 59
  second : time.2 ≤ 60
  first : 1 ≤ day
  last : day ≤ 31
  gregorian : 1601 ≤ full_year year

date_of-IsDate :
    (p : Platform) (time : ℕ × ℕ × ℕ) (day month year : ℕ)
    → IsDate time day year
    → IsMonth (some month)
    → year ≤ 9999
    → (t : Instant) × (date_of p time day month year ≡ some t)
unfolding date_of
date_of-IsDate p (hour, minute, second) day month year v m y =
    let (low, high) =
      days_from_civil_bounds (full_year year) month day v.gregorian (full_year_le year y) m.0 m.1
        v.first v.last in
    let (t, fits) =
      since_epoch-fits p
        (days_from_civil (full_year year) month day * 86400 + hour * 3600 + minute * 60 + second)
        (omega (arith, low)) (omega (arith, high, v.hour, v.minute, v.second)) in
    let time_ok : (ltb 23 hour || ltb 59 minute || ltb 60 second || nat_beq day 0 || ltb 31 day)
        ≡ false =
      ground (arith, v.hour, v.minute, v.second, v.first, v.last) in
    let year_ok : ltb (full_year year) 1601 ≡ false = ground (arith, v.gregorian) in
    (t, rw (time_ok, year_ok) fits)

-- A date whose parts were all found and pass the tests is read, on every platform: the conversion
-- to a `SystemTime` does not leave what the clock can represent.
parse_cookie_date-IsDate :
    (p : Platform) (input : Text) (time : ℕ × ℕ × ℕ) (day month year : ℕ)
    → read_tokens
        (pieces is_delimiter input)
        (record { time = none; day = none; month = none; year = none })
      ≡ record { time = some time; day = some day; month = some month; year = some year }
    → IsDate time day year
    → (t : Instant) × (parse_cookie_date p input ≡ some t)
unfolding parse_cookie_date
parse_cookie_date-IsDate p input time day month year found v =
    let read = subst IsRead found (
      read_tokens-IsRead (pieces is_delimiter input)
        (record { time = none; day = none; month = none; year = none })
        (record { month = tt; year = tt })) in
    let (t, ends) = date_of-IsDate p time day month year v read.month read.year in
    let dated : Found → Option Instant = λ f. elim f.time [
      | none ↦ none
      | some time ↦ elim f.day [
        | none ↦ none
        | some day ↦ elim f.month [
          | none ↦ none
          | some month ↦ elim f.year [ none ↦ none | some year ↦ date_of p time day month year ]
        ]
      ]
    ] in
    (t, ap dated found ∙ ends)
