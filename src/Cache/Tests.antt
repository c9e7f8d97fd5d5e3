-- ===== src/Cache/Tests.antt =====
-- Concrete stores, header maps and entries, and the theorems at them.
use chromulate.Prelude.{
  ℕ, ◌+◌, ◌≤◌, ◌<◌, filter, not, ◌≡◌, ◌↔◌, refl, true, some, List, [], ◌∷◌, arith, ℕ_comparable,
  ◌==◌, if◌then◌else◌, nat_beq, All, Any,
}
use chromulate.Prelude.Time.{from_secs}
use chromulate.Prelude.Text.{Text, ascii, text_comparable, to_ascii_lowercase, split, trim, is_nil}
use chromulate.Prelude.Plain.{plain, no_headers}
use chromulate.Cache.Storage.{
  Stored, MemoryLimits, MemoryStore, with_limits, put, get, delete, stats, shard_put, shard_get,
  shard_remove, set_shard, purge, next_tick, empty_shards, shard_at, index_of, record_size,
  merge_variants, per_shard,
}
use chromulate.Cache.Storage.Bounds.{
  Call, gets, puts, removes, run, step, IsWithin, run-IsWithin-stats,
}
use chromulate.Cache.Storage.Measured.{IsExact, run-IsExact-stats}
use chromulate.Cache.Storage.Contents.{
  contents, contents-get, contents-delete, contents-put, merge_variants_one,
}
use chromulate.Cache.Date.{Platform, days_from_civil, epoch_days}
use chromulate.Cache.Date.Calendar.{Date, IsDate, number_of, next_day, number_of-next_day}
use chromulate.Cache.Directive.{CacheControl, no_directives, explicit_lifetime, of}
use chromulate.Cache.Storage.Contents.Refusal.{contents-put-refused}
use chromulate.Cache.Directive.Forbidden.{Forbids, of-Forbids}
use chromulate.Cache.Entry.{
  CacheEntry, vary_names, vary_values, vary_tokens, sort_names, insert_name, text_leb, dedup,
  dedup_from, age_field, effective_date, date, header_date,
}
use chromulate.Prelude.Assoc.{lookup, insert, remove}
use chromulate.Cache.Policy.{
  storable_as, is_cacheable_status, one_of, any_unselectable, contains, is_usable, has_validator,
  is_heuristically_cacheable, freshness_lifetime, current_age, initial_age, storable, stored_under,
  default, is_fresh,
}
use chromulate.Cache.Policy.Storing.{IsStorable, storable-IsStorable}
use chromulate.Cache.Policy.Freshness.{is_fresh-antitone}

-- Keys are numbers of one byte; an entry is a selector and a size.
abbrev sized : Stored ℕ (ℕ × ℕ)
sized = record { key_size = λ k. 1; size = λ e. e.1; same_selector = λ a b. nat_beq a.0 b.0 }

abbrev two_shards : MemoryLimits
two_shards = record { max_bytes = 20; shards = 2 }

abbrev parity : ℕ → ℕ
parity k = k

abbrev three_puts : List (Call ℕ (ℕ × ℕ))
three_puts = puts 0 (1, 3) ∷ puts 2 (1, 4) ∷ gets 0 ∷ puts 1 (1, 6) ∷ removes 5 ∷ []

abbrev filled : MemoryStore ℕ (ℕ × ℕ)
filled = run sized parity two_shards three_puts (with_limits two_shards)

run-IsExact-stats_example :
    All
      (IsExact sized parity two_shards)
      (run sized parity two_shards three_puts (with_limits two_shards)).shards
    × (2 ≤ 20 → (stats (run sized parity two_shards three_puts (with_limits two_shards))).1 ≤ 20)
run-IsExact-stats_example = run-IsExact-stats sized parity two_shards three_puts

filled-IsWithin : IsWithin two_shards filled
filled-IsWithin = (run-IsWithin-stats sized parity two_shards three_puts).0

contents-get_example :
    ((get parity 0 filled).1 ≡ contents parity filled 0)
    × (contents parity (get parity 0 filled).0 2 ≡ contents parity filled 2)
contents-get_example = contents-get parity two_shards 0 2 filled filled-IsWithin

abbrev key_zero : ℕ
key_zero = 0

contents-delete_example :
    contents parity (delete parity key_zero filled) key_zero
    ≡ (if key_zero == key_zero then [] else contents parity filled key_zero)
contents-delete_example = contents-delete parity two_shards key_zero key_zero filled filled-IsWithin

filled_room :
    (shard_at (index_of parity 3 filled) filled.shards).bytes
      + record_size sized 3 (merge_variants sized (contents parity filled 3) (2, 2))
    ≤ per_shard two_shards
unfolding run step with_limits empty_shards put get delete shard_put shard_get shard_remove shard_at
    set_shard merge_variants purge per_shard next_tick lookup insert remove
filled_room = omega arith

contents-put_example : contents parity (put sized parity two_shards 3 (2, 2) filled) key_zero ≡ (
    if 3 == key_zero
    then merge_variants sized (contents parity filled 3) (2, 2)
    else contents parity filled key_zero)
contents-put_example =
    contents-put sized parity two_shards 3 key_zero (2, 2) filled filled-IsWithin filled_room

abbrev leap_day : Date
leap_day = record { year = 2024; month = 2; day = 29 }

leap_day-IsDate : IsDate leap_day
leap_day-IsDate = record {
  year_pos = omega arith;
  month_pos = omega arith;
  month_le = omega arith;
  day_pos = omega arith;
  day_le = omega arith;
}

number_of-next_day_example :
    (number_of (next_day leap_day) ≡ number_of leap_day + 1)
    × (days_from_civil 1970 1 1 ≡ epoch_days)
number_of-next_day_example = number_of-next_day leap_day leap_day-IsDate

abbrev tagged : Text → List Text
tagged n =
    if n == ascii "etag"
    then ascii "a" ∷ []
    else if n == ascii "vary"
    then ascii "X-B, x-a" ∷ []
    else []

abbrev kept_minute : CacheControl
kept_minute = record no_directives { max_age = some 60 }

abbrev two_names : List Text
two_names = ascii "x-a" ∷ ascii "x-b" ∷ []

tagged-storable :
    storable plain default (ascii "GET") no_headers no_directives 200 tagged no_directives
    ≡ stored_under two_names
unfolding storable storable_as is_cacheable_status one_of vary_names vary_values vary_tokens
    sort_names insert_name text_leb dedup dedup_from any_unselectable contains is_usable
    has_validator to_ascii_lowercase split trim is_nil is_heuristically_cacheable
tagged-storable = refl

storable-IsStorable_example :
    (storable plain default (ascii "GET") no_headers no_directives 200 tagged no_directives
      ≡ stored_under two_names)
    ↔ IsStorable plain default
        (ascii "GET")
        no_headers
        no_directives
        200
        tagged
        no_directives
        two_names
storable-IsStorable_example =
    storable-IsStorable plain default (ascii "GET") no_headers no_directives 200 tagged
      no_directives two_names

abbrev clock : Platform
clock = record {
  epoch = from_secs 11644473600;
  last = from_secs 999999999999;
  holds_1601 = omega arith;
  holds_9999 = omega arith;
}

abbrev stored_page : CacheEntry (Text → List Text)
stored_page = record {
  status = 200;
  version = 11;
  headers = tagged;
  body = [];
  selector = [];
  requested_at = from_secs 999;
  received_at = from_secs 1000;
}

fresh_at_1050 : is_fresh plain clock stored_page kept_minute default (from_secs 1050) ≡ true
unfolding is_fresh freshness_lifetime explicit_lifetime current_age initial_age age_field
    effective_date date header_date
fresh_at_1050 = refl

is_fresh-antitone_example :
    is_fresh plain clock stored_page kept_minute default (from_secs 1020) ≡ true
is_fresh-antitone_example =
    is_fresh-antitone plain clock stored_page kept_minute default (from_secs 1020) (from_secs 1050)
      (omega arith) fresh_at_1050

-- A body of nine bytes cannot be held by a shard of ten once the key and the other variant count.
too_large :
    per_shard two_shards
    < record_size sized 0 (merge_variants sized (contents parity filled 0) (2, 9))
unfolding run step with_limits empty_shards put get delete shard_put shard_get shard_remove shard_at
    set_shard merge_variants purge per_shard next_tick lookup insert remove
too_large = omega arith

contents-put-refused_example :
    contents parity (put sized parity two_shards 0 (2, 9) filled) key_zero
    ≡ (if 0 == key_zero then [] else contents parity filled key_zero)
contents-put-refused_example =
    contents-put-refused sized parity two_shards 0 key_zero (2, 9) filled filled-IsWithin too_large

abbrev forbidding : Text → List Text
forbidding n =
    if n == ascii "cache-control" then ascii "max-age=5" ∷ ascii "public, No-Store=x" ∷ [] else []

of-Forbids_example :
    ((of plain forbidding).no_store ≡ true)
    ↔ Any (Forbids plain) (forbidding (ascii "cache-control"))
of-Forbids_example = of-Forbids plain forbidding

merge_variants_one_example :
    (filter (λ x. nat_beq x.0 1) (merge_variants sized ((1, 3) ∷ (2, 4) ∷ []) (1, 9)) ≡ (1, 9) ∷ [])
    × (filter (λ x. not (nat_beq x.0 1)) (merge_variants sized ((1, 3) ∷ (2, 4) ∷ []) (1, 9))
        ≡ filter (λ x. not (nat_beq x.0 1)) ((1, 3) ∷ (2, 4) ∷ []))
merge_variants_one_example = merge_variants_one sized ((1, 3) ∷ (2, 4) ∷ []) (1, 9) refl
