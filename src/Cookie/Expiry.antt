-- ===== src/Cookie/Expiry.antt =====
-- crates/chromulate-cookie/src/date.rs: the dates of the `Expires` attribute. The count of days is
-- the one of the cache's dates; a year is at least 1601 where days are counted.
pub mod Range
pub mod Reading
use chromulate.Prelude.{
  ℕ, suc, ◌+◌, ◌-◌, ◌*◌, Bool, not, ◌&&◌, ◌||◌, Option, none, some, List, [], ◌∷◌, ltb, leb,
  nat_beq, if◌then◌else◌, length, take, is_some,
}
use chromulate.Prelude.Time.{Instant, from_secs, checked_add}
use chromulate.Prelude.Int.{ℤ, pos, negsuc}
use chromulate.Prelude.Text.{
  Text, is_nil, is_digit, all_digits, digits_value, pieces, split_once, to_ascii_lowercase,
}
use chromulate.Cache.Date.{Platform, months, epoch_days, days_from_civil, position_from}

unfoldable pub is_delimiter : ℕ → Bool
is_delimiter c =
    nat_beq c 0x09
    || (leb 0x20 c && leb c 0x2f)
    || (leb 0x3b c && leb c 0x40)
    || (leb 0x5b c && leb c 0x60)
    || (leb 0x7b c && leb c 0x7e)

-- The run of digits at the start.
unfoldable pub digit_run : Text → Text
unfolding is_digit
digit_run [] = []
digit_run (c ∷ s) = if is_digit c then c ∷ digit_run s else []

-- The value of the digits in front and their number; a value above `u32::MAX` is none.
unfoldable pub leading_digits : Text → Option (ℕ × ℕ)
unfolding digit_run
leading_digits token =
    let run : Text = digit_run token in
    if is_nil run || ltb 4294967295 (digits_value 0 run)
    then none
    else some (digits_value 0 run, length run)

unfoldable pub one_or_two_digits : Text → Bool
one_or_two_digits s = not (is_nil s) && not (ltb 2 (length s)) && all_digits s

-- `hour:minute:` and the seconds in front of the rest.
unfoldable pub try_time : Text → Option (ℕ × ℕ × ℕ)
try_time token = elim (split_once b':' token) [
  | none ↦ none
  | some (hour, behind) ↦ elim (split_once b':' behind) [
    | none ↦ none
    | some (minute, rest) ↦
        if not (one_or_two_digits hour) || not (one_or_two_digits minute)
        then none
        else (elim (leading_digits rest) [
          | none ↦ none
          | some (second, count) ↦
              if ltb 2 count
              then none
              else some (digits_value 0 hour, digits_value 0 minute, second)
        ])
  ]
]

-- What the tokens read so far have given.
pub record Found : Type 0 where
  pub time : Option (ℕ × ℕ × ℕ)
  pub day : Option ℕ
  pub month : Option ℕ
  pub year : Option ℕ

-- The tests of one token, in the order of the loop's body; `none` goes on to the next.
unfoldable pub take_time : Text → Found → Option Found
take_time token f =
    if is_some f.time
    then none
    else (elim (try_time token) [ none ↦ none | some t ↦ some (record f { time = some t }) ])

unfoldable pub take_day : Text → Found → Option Found
take_day token f = if is_some f.day then none else (elim (leading_digits token) [
  | none ↦ none
  | some (value, len) ↦ if leb len 2 then some (record f { day = some value }) else none
])

unfoldable pub take_month : Text → Found → Option Found
take_month token f =
    if is_some f.month || ltb (length token) 3
    then none
    else (elim (position_from 1 (to_ascii_lowercase (take 3 token)) months) [
      | none ↦ none
      | some m ↦ some (record f { month = some m })
    ])

unfoldable pub take_year : Text → Found → Option Found
take_year token f = if is_some f.year then none else (elim (leading_digits token) [
  | none ↦ none
  | some (value, len) ↦
      if nat_beq len 2 || nat_beq len 4 then some (record f { year = some value }) else none
])

unfoldable pub read_token : Text → Found → Found
read_token token f = elim (take_time token f) [
  | some g ↦ g
  | none ↦ elim (take_day token f) [
    | some g ↦ g
    | none ↦ elim (take_month token f) [
      | some g ↦ g
      | none ↦ elim (take_year token f) [ some g ↦ g | none ↦ f ]
    ]
  ]
]

unfoldable pub read_tokens : List Text → Found → Found
read_tokens [] f = f
read_tokens (token ∷ tokens) f = read_tokens tokens (read_token token f)

-- `none` is the panic of `+` and `-` on a `SystemTime` that leaves what the clock can represent.
unfoldable pub epoch_seconds_to_system_time : Platform → ℤ → Option Instant
epoch_seconds_to_system_time p (pos n) = checked_add p.last p.epoch (from_secs n)
epoch_seconds_to_system_time p (negsuc n) =
    if leb (from_secs (suc n)) p.epoch then some (p.epoch - from_secs (suc n)) else none

-- The year as it is meant: two digits are of the years 1970 to 2069.
unfoldable pub full_year : ℕ → ℕ
full_year year =
    if leb 70 year && leb year 99 then year + 1900 else if leb year 69 then year + 2000 else year

-- Seconds since the epoch, from seconds since the first of March of the year 0.
unfoldable pub since_epoch : ℕ → ℤ
since_epoch seconds =
    let start : ℕ = epoch_days * 86400 in
    if leb start seconds then pos (seconds - start) else negsuc (start - seconds - 1)

-- The conversion never panics here: `Reading` shows that the clock represents every date behind
-- the tests, so `none` is a date that is refused.
unfoldable pub date_of : Platform → ℕ × ℕ × ℕ → (day month year : ℕ) → Option Instant
date_of p (hour, minute, second) day month year =
    if ltb 23 hour || ltb 59 minute || ltb 60 second || nat_beq day 0 || ltb 31 day
    then none
    else if ltb (full_year year) 1601
    then none
    else epoch_seconds_to_system_time p (
        since_epoch
          (days_from_civil (full_year year) month day * 86400 + hour * 3600 + minute * 60 + second))

unfoldable pub parse_cookie_date : Platform → Text → Option Instant
parse_cookie_date p input =
    let f : Found =
      read_tokens (pieces is_delimiter input)
        (record { time = none; day = none; month = none; year = none }) in
    elim f.time [
      | none ↦ none
      | some time ↦ elim f.day [
        | none ↦ none
        | some day ↦ elim f.month [
          | none ↦ none
          | some month ↦ elim f.year [ none ↦ none | some year ↦ date_of p time day month year ]
        ]
      ]
    ]
