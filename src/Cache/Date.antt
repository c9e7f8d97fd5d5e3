-- ===== src/Cache/Date.antt =====
-- crates/chromulate-cache/src/date.rs: the dates of header fields.
-- Years are at least 1601 where days are counted, so days are counted from the first of March of
-- the year 0 and the epoch's 719468 is taken off at the end, where the sign is decided.
pub mod Calendar
use chromulate.Prelude.{
  ℕ, zero, suc, ◌+◌, ◌-◌, ◌*◌, ◌/◌, ◌%◌, ◌≤◌, Bool, true, false, not, ◌&&◌, ◌||◌, Option, none,
  some, List, [], ◌∷◌, ltb, leb, nat_beq, if◌then◌else◌, length, ◌==◌,
}
use chromulate.Prelude.Time.{Instant, from_secs, checked_add}
use chromulate.Prelude.Text.{
  Text, ascii, text_comparable, trim, split, split_once, pieces, is_nil, all_digits, digits_value,
  to_ascii_lowercase,
}

-- `UNIX_EPOCH` and the platform's last `SystemTime`, as instants; its first one is 0. Every
-- supported platform's clock holds the years 1601 to 9999.
pub record Platform : Type 0 where
  pub epoch : Instant
  pub last : Instant
  pub holds_1601 : from_secs 11644473600 ≤ epoch
  pub holds_9999 : epoch + from_secs 253402300800 ≤ last

abbrev pub months : List Text
months =
    ascii "jan"
    ∷ ascii "feb"
    ∷ ascii "mar"
    ∷ ascii "apr"
    ∷ ascii "may"
    ∷ ascii "jun"
    ∷ ascii "jul"
    ∷ ascii "aug"
    ∷ ascii "sep"
    ∷ ascii "oct"
    ∷ ascii "nov"
    ∷ ascii "dec"
    ∷ []

abbrev pub epoch_days : ℕ
epoch_days = 719468

-- `days_from_civil`, before the epoch's days are taken off.
unfoldable pub days_from_civil : (y m d : ℕ) → ℕ
days_from_civil year m d =
    let y : ℕ = if leb m 2 then year - 1 else year in
    let era : ℕ = y / 400 in
    let yoe : ℕ = y - era * 400 in
    let mp : ℕ = (m + 9) % 12 in
    let doy : ℕ = (153 * mp + 2) / 5 + d - 1 in
    let doe : ℕ = yoe * 365 + yoe / 4 - yoe / 100 + doy in era * 146097 + doe

unfoldable pub two_digits : Text → Option ℕ
two_digits token =
    if is_nil token || ltb 2 (length token) || not (all_digits token)
    then none
    else some (digits_value 0 token)

-- `time_of` on the pieces between colons.
unfoldable pub time_of_parts : List Text → Option (ℕ × ℕ × ℕ)
time_of_parts (h ∷ m ∷ s ∷ []) = elim (two_digits h) [
  | none ↦ none
  | some hour ↦ elim (two_digits m) [
    | none ↦ none
    | some minute ↦ elim (two_digits s) [
      | none ↦ none
      | some second ↦
          if ltb 23 hour || ltb 59 minute || ltb 60 second
          then none
          else some (hour, minute, second)
    ]
  ]
]
time_of_parts _ = none

unfoldable pub time_of : Text → Option (ℕ × ℕ × ℕ)
time_of token = time_of_parts (split b':' token)

unfoldable pub position_from : ℕ → Text → List Text → Option ℕ
position_from i t [] = none
position_from i t (x ∷ xs) = if x == t then some i else position_from (i + 1) t xs

unfoldable pub month_of : Text → Option ℕ
month_of token =
    if nat_beq (length token) 3 then position_from 1 (to_ascii_lowercase token) months else none

unfoldable pub year_of : Text → Option ℕ
year_of token =
    let value : ℕ = digits_value 0 token in
    if not (all_digits token)
    then none
    else if nat_beq (length token) 2
    then some (if leb 70 value then 1900 + value else 2000 + value)
    else if nat_beq (length token) 4
    then some value
    else none

unfoldable pub is_blank : ℕ → Bool
is_blank c = nat_beq c 32 || nat_beq c 9

unfoldable pub is_blank_or_dash : ℕ → Bool
unfolding is_blank
is_blank_or_dash c = nat_beq c b'-' || is_blank c

-- Day, month, year and time of the two forms, as written.
unfoldable pub imf_fields : List Text → Option (Text × Text × Text × Text)
imf_fields (day ∷ month ∷ year ∷ time ∷ rest) = some (day, month, year, time)
imf_fields _ = none

unfoldable pub asctime_fields : List Text → Option (Text × Text × Text × Text)
asctime_fields (weekday ∷ month ∷ day ∷ time ∷ year ∷ rest) = some (day, month, year, time)
asctime_fields _ = none

unfoldable pub date_fields : Text → Option (Text × Text × Text × Text)
date_fields input = elim (split_once b',' input) [
  | none ↦ asctime_fields (pieces is_blank input)
  | some (weekday, rest) ↦
      if is_nil (trim weekday) then none else imf_fields (pieces is_blank_or_dash rest)
]

-- The instant of so many seconds since the first of March of the year 0.
unfoldable pub instant_of : Platform → ℕ → Option Instant
instant_of p seconds =
    let start : ℕ = epoch_days * 86400 in
    if leb start seconds
    then checked_add p.last p.epoch (from_secs (seconds - start))
    else if leb (from_secs (start - seconds)) p.epoch
    then some (p.epoch - from_secs (start - seconds))
    else none

unfoldable pub instant_of_date : Platform → (day month year : ℕ) → ℕ × ℕ × ℕ → Option Instant
instant_of_date p day month year (hour, minute, second) =
    if nat_beq day 0 || ltb 31 day || ltb year 1601
    then none
    else instant_of p (days_from_civil year month day * 86400 + hour * 3600 + minute * 60 + second)

unfoldable pub parse_http_date : Platform → Text → Option Instant
parse_http_date p input = elim (date_fields (trim input)) [
  | none ↦ none
  | some (day, month, year, time) ↦ elim (two_digits day) [
    | none ↦ none
    | some d ↦ elim (month_of month) [
      | none ↦ none
      | some m ↦ elim (year_of year) [
        | none ↦ none
        | some y ↦ elim (time_of time) [ none ↦ none | some t ↦ instant_of_date p d m y t ]
      ]
    ]
  ]
]
