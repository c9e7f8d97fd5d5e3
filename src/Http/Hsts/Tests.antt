-- ===== src/Http/Hsts/Tests.antt =====
-- Stores that have seen concrete headers, and the theorems at them.
use chromulate.Prelude.{
  ℕ, ◌≤◌, max, Option, none, some, ◌⊎◌, arith, Bool, true, false, List, [], ◌∷◌, ◌≡◌, ◌↔◌, refl,
  length,
}
use chromulate.Prelude.Time.{from_secs}
use chromulate.Prelude.Text.{
  Text, ascii, trim, split, split_once, strip_suffix, is_nil, parse_u64, eq_ignore_ascii_case,
}
use chromulate.Prelude.Assoc.{lookup, insert, remove}
use chromulate.Http.Hsts.{
  HstsStore, with_capacity, record_header, learn, parse, read_token, read_tokens, trim_quotes,
  drop_quotes, canonical_name, any_nil, is_ip_literal, applies_to, any_parent, evict, soonest,
  soonest_from, drop_soonest,
}
use chromulate.Http.Hsts.Capacity.{Seen, see_all, see_all-with_capacity}
use chromulate.Http.Hsts.Upgrade.{Schemes, IsKept, IsUpgrade, upgrade, upgrade-IsUpgrade}
use chromulate.Http.Hsts.Coverage.{IsCovered, applies_to-IsCovered}

abbrev no_address : Text → Bool
no_address s = false

abbrev headers : List Seen
headers =
    record {
      host = ascii "A.test";
      value = ascii "max-age=\"60\"; includeSubDomains";
      over_tls = true;
      at = 0;
    }
    ∷ record { host = ascii "b.test."; value = ascii "max-age=30"; over_tls = true; at = 1 }
    ∷ record { host = ascii "c.test"; value = ascii "max-age=90"; over_tls = false; at = 2 }
    ∷ []

abbrev seen_both : HstsStore
seen_both = see_all no_address 0 (from_secs 99999999999) headers (with_capacity 5)

-- A plaintext header counts for nothing; a host below the first name is covered.
covered_hosts :
    (applies_to no_address (ascii "deep.x.a.TEST.") (from_secs 59) seen_both ≡ true)
    × (applies_to no_address (ascii "x.b.test") 5 seen_both ≡ false)
    × (applies_to no_address (ascii "c.test") 5 seen_both ≡ false)
    × (applies_to no_address (ascii "b.test") 5 seen_both ≡ true)
unfolding see_all with_capacity record_header learn parse read_token read_tokens trim_quotes
    drop_quotes canonical_name any_nil is_ip_literal applies_to any_parent evict soonest
    soonest_from drop_soonest lookup insert remove is_nil strip_suffix split eq_ignore_ascii_case
    split_once trim parse_u64
covered_hosts = (refl, refl, refl, refl)

see_all-with_capacity_example :
    length (see_all no_address 0 (from_secs 99999999999) headers (with_capacity 5)).hosts ≤ max 5 1
see_all-with_capacity_example = see_all-with_capacity no_address 0 (from_secs 99999999999) 5 headers

applies_to-IsCovered_example :
    (applies_to no_address (ascii "deep.x.a.TEST.") (from_secs 59) seen_both ≡ true)
    ↔ IsCovered no_address (ascii "deep.x.a.TEST.") (from_secs 59) seen_both
applies_to-IsCovered_example =
    applies_to-IsCovered no_address (ascii "deep.x.a.TEST.") (from_secs 59) seen_both

-- A URL as its scheme, host and explicit port.
abbrev triples : Schemes
triples = record {
  Url = Text × Option Text × Option ℕ;
  scheme = λ url. url.0;
  host_str = λ url. url.1;
  port = λ url. url.2;
  set_scheme = λ s url. some (s, url.1, url.2);
  without_port = λ url. (url.0, url.1, none);
  scheme-set_scheme = λ s url v h. ground (arith, h);
  host_str-set_scheme = λ s url v h. ground (arith, h);
  scheme-without_port = λ url. refl;
  host_str-without_port = λ url. refl;
  port-without_port = λ url. refl;
}

abbrev plain_url : triples.Url
plain_url = (ascii "http", some (ascii "x.a.test"), some 80)

upgraded :
    upgrade no_address triples seen_both (from_secs 59) plain_url
    ≡ (true, (ascii "https", some (ascii "x.a.test"), none))
unfolding see_all with_capacity record_header learn parse read_token read_tokens trim_quotes
    drop_quotes canonical_name any_nil is_ip_literal applies_to any_parent evict soonest
    soonest_from drop_soonest lookup insert remove is_nil strip_suffix split eq_ignore_ascii_case
    split_once trim parse_u64 upgrade
upgraded = refl

upgrade-IsUpgrade_example :
    (((upgrade no_address triples seen_both (from_secs 59) plain_url).0 ≡ false)
      × ((upgrade no_address triples seen_both (from_secs 59) plain_url).1 ≡ plain_url)
      × IsKept no_address triples seen_both (from_secs 59) plain_url)
    ⊎ (((upgrade no_address triples seen_both (from_secs 59) plain_url).0 ≡ true)
        × IsUpgrade no_address triples seen_both
            (from_secs 59)
            plain_url
            (upgrade no_address triples seen_both (from_secs 59) plain_url).1)
upgrade-IsUpgrade_example = upgrade-IsUpgrade no_address triples seen_both (from_secs 59) plain_url
