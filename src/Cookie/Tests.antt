-- ===== src/Cookie/Tests.antt =====
-- Tests of the cookie jar on concrete inputs.
use chromulate.Prelude.{
  List, Option, ◌≤◌, ◌^◌, true, false, none, some, [], ◌∷◌, ◌++◌, ◌≡◌, ◌↔◌, ◌⊎◌, refl, arith,
  if◌then◌else◌, ◌==◌, Any,
}
use chromulate.Prelude.Time.{from_secs}
use chromulate.Prelude.Plain.{plain}
use chromulate.Prelude.Text.{
  Text, ascii, text_comparable, strip_prefix, strip_suffix, u64_max, is_nil, trim, trim_start,
  is_space, split, split_once, to_ascii_lowercase, lower, eq_ignore_ascii_case,
}
use chromulate.Prelude.Assoc.{lookup, insert, remove}
use chromulate.Cache.Date.{Platform}
use chromulate.Cache.Directive.{unquote}
use chromulate.Cookie.Expiry.{epoch_seconds_to_system_time}
use chromulate.Prelude.Int.{pos}
use chromulate.Cookie.Domain.{
  Suffixes, ends_with, is_ip_literal, domain_matches, domain_matches-IsBelow, IsBelow, site_of,
  is_public_suffix,
}
use chromulate.Cookie.Path.{
  starts_with, path_matches, default_path, rfind, path_matches-IsDeeper, IsDeeper,
}
use chromulate.Cookie.Parsing.{
  lax, Cookie, Request, parse, parse_segments, accept, scope, cookie_path, carries_a_name_prefix,
  has_host_prefix, has_secure_prefix, starts_with_ignore_ascii_case, keeps_name_prefix_promise,
  read_segments, read_segment, set_attribute, resolved_expires, is_expired, domain_attribute,
}
use chromulate.Cookie.Parsing.Accepted.{IsAccepted, parse-IsAccepted}
use chromulate.Cookie.Bucket.{
  Entry, Bucket, identity_of, push, trim_to, position_of, reindex, reindex_from, remove_all,
  keep_from, contains, ranked_from, insert_ranked, remove_expired,
}
use chromulate.Cookie.Bucket.Bulk.{IsIndexed, reindex-IsIndexed}
use chromulate.Cookie.Jar.{
  JarLimits, default, Store, Counters, apply_set_cookie, put_cookie, with_site, domain_purge_target,
  domain_purge_batch, purge_batch, purge_target,
}
use chromulate.Cookie.Jar.Replacement.{
  Result, kept_under, stored, apply_set_cookie-Updated, Updated,
}
use chromulate.Cookie.Jar.Counts.{IsValid}
use chromulate.Cookie.Jar.Upkeep.{EndsValid, store-EndsValid}
use chromulate.Cookie.Jar.Capacity.{held_of}
use chromulate.Cookie.Jar.Limits.{IsWithin, store-IsWithin, import-IsWithin}
use chromulate.Cookie.Jar.Eviction.{enforce_total}
use chromulate.Cookie.Jar.Storing.{
  Jar, store, store_headers, store_cookie, held_down, touch, seen, tidy_touched,
}
use chromulate.Cookie.Jar.Serving.{CookieContext, before, is_representable}
use chromulate.Cookie.Jar.Snapshot.{
  CookieRecord, finished, import, import_record, is_admissible, put_record, entry_of, expires_of,
}
use chromulate.Cookie.Jar.Restoring.{put_record-Updated, EndsAs, Overflows}
use chromulate.Cookie.Jar.Runs.{
  Operation, serve, keep, restore, new, run, Panics, EndsWithin, run-new-EndsWithin,
}
use chromulate.Cookie.Jar.Wrap.{put_two, import_record-put_two}

abbrev site : Text
site = ascii "a.de"

abbrev host : Text
host = ascii "w.a.de"

-- One registrable domain and one address.
abbrev one_list : Suffixes
one_list = record {
  is_ipv4 = λ t. t == ascii "1.2.3.4";
  is_ipv6 = λ t. false;
  registrable = λ t. if t == site then some site else if t == host then some site else none;
}

abbrev clock : Platform
clock = record {
  epoch = from_secs 11644473600;
  last = from_secs (2 ^ 40);
  holds_1601 = omega arith;
  holds_9999 = omega arith;
}

abbrev request : Request
request = record { host = host; path = ascii "/x/y"; is_secure = true; now = from_secs 2000 }

domain_matches-IsBelow_example :
    (domain_matches one_list host site ≡ true)
    ↔ ((host ≡ site) ⊎ ((is_ip_literal one_list host ≡ false) × IsBelow one_list host site))
domain_matches-IsBelow_example = domain_matches-IsBelow one_list host site

path_matches-IsDeeper_example :
    (path_matches (ascii "/x/y") (ascii "/x") ≡ true)
    ↔ ((rest : Text) × (ascii "/x/y" ≡ ascii "/x" ++ rest) × IsDeeper (ascii "/x") rest)
path_matches-IsDeeper_example = path_matches-IsDeeper (ascii "/x/y") (ascii "/x")

abbrev set_one : Text
set_one = ascii "n=1; Domain=a.de; Secure"

abbrev cookie_one : Cookie
cookie_one = record {
  name = ascii "n";
  value = ascii "1";
  domain = site;
  host_only = false;
  path = ascii "/x";
  secure = true;
  http_only = false;
  same_site = lax;
  partitioned = false;
  expires = none;
}

parsed_one : parse one_list clock plain set_one request ≡ some cookie_one
unfolding parse parse_segments accept scope cookie_path carries_a_name_prefix has_host_prefix
    has_secure_prefix starts_with_ignore_ascii_case read_segments read_segment set_attribute
    resolved_expires split split_once trim trim_start is_space is_nil to_ascii_lowercase lower
    eq_ignore_ascii_case strip_prefix strip_suffix unquote default_path is_ip_literal
    is_public_suffix domain_matches ends_with domain_attribute rfind
parsed_one = refl

parse-IsAccepted_example : IsAccepted one_list request cookie_one
parse-IsAccepted_example =
    parse-IsAccepted one_list clock plain set_one request cookie_one parsed_one

abbrev start : Counters
start = record { creation = 5; access = 9 }

-- Two cookies of one site, the one created later with the longer path.
abbrev entry_one : Entry
entry_one = record { cookie = cookie_one; creation_seq = 3; last_access_seq = 7 }

abbrev entry_two : Entry
entry_two = record {
  cookie = record cookie_one { name = ascii "m"; path = ascii "/" };
  creation_seq = 2;
  last_access_seq = 8;
}

abbrev two : Bucket
two = record {
  entries = entry_one ∷ entry_two ∷ [];
  index = (identity_of entry_one.cookie, 0) ∷ (identity_of entry_two.cookie, 1) ∷ [];
}

two-IsIndexed : IsIndexed two
unfolding reindex reindex_from insert
two-IsIndexed = reindex-IsIndexed (entry_one ∷ entry_two ∷ []) ((refl, tt), (tt, tt))

apply_set_cookie-Updated_example :
    Result
      (apply_set_cookie (from_secs 2000) false cookie_one two start)
      two
      cookie_one
      (kept_under (from_secs 2000) false cookie_one start (stored (identity_of cookie_one) two))
apply_set_cookie-Updated_example =
    apply_set_cookie-Updated (from_secs 2000) false cookie_one two start two-IsIndexed

abbrev held_two : Store
held_two = record { sites = (site, two) ∷ []; total = 2 }

held_two-IsValid : IsValid held_two
unfolding lookup
held_two-IsValid = record { indexed = (two-IsIndexed, tt); distinct = (refl, tt); total = refl }

store-EndsValid_example :
    EndsValid (store one_list clock plain default (some request) (set_one ∷ []) (held_two, start))
store-EndsValid_example =
    store-EndsValid one_list clock plain default (some request) (set_one ∷ []) (held_two, start)
      held_two-IsValid

abbrev tight : JarLimits
tight = record { per_domain = 2; total = 9 }

-- A third cookie of the site is one too many for `tight`: the one read longest ago goes.
abbrev set_three : Text
set_three = ascii "k=3; Path=/"

abbrev entry_three : Entry
entry_three = record {
  cookie = record {
    name = ascii "k";
    value = ascii "3";
    domain = host;
    host_only = true;
    path = ascii "/";
    secure = false;
    http_only = false;
    same_site = lax;
    partitioned = false;
    expires = none;
  };
  creation_seq = 5;
  last_access_seq = 9;
}

abbrev trimmed : Bucket
trimmed = record {
  entries = entry_two ∷ entry_three ∷ [];
  index = (identity_of entry_two.cookie, 0) ∷ (identity_of entry_three.cookie, 1) ∷ [];
}

abbrev jar_trimmed : Jar
jar_trimmed =
    (record { sites = (site, trimmed) ∷ []; total = 2 }, record { creation = 6; access = 10 })

stored_three :
    store one_list clock plain tight (some request) (set_three ∷ []) (held_two, start)
    ≡ some jar_trimmed
unfolding store store_headers store_cookie parse parse_segments accept scope cookie_path
    carries_a_name_prefix has_host_prefix has_secure_prefix starts_with
    starts_with_ignore_ascii_case read_segments read_segment set_attribute resolved_expires split
    split_once trim trim_start is_space is_nil to_ascii_lowercase lower eq_ignore_ascii_case
    strip_prefix strip_suffix unquote site_of is_ip_literal apply_set_cookie position_of lookup
    is_expired put_cookie push held_down touch seen tidy_touched trim_to remove_expired ranked_from
    insert_ranked remove_all keep_from contains reindex reindex_from with_site insert remove
    enforce_total domain_purge_target domain_purge_batch purge_target purge_batch
stored_three = refl

within_two : (k : Text) → held_of k held_two ≤ tight.per_domain
unfolding lookup
within_two k = ground arith

held_two-IsWithin : IsWithin tight held_two
held_two-IsWithin = record { per_domain = within_two; total = omega arith }

store-IsWithin_example : IsWithin tight jar_trimmed.0
store-IsWithin_example =
    store-IsWithin one_list clock plain tight (some request) (set_three ∷ []) (held_two, start)
      jar_trimmed held_two-IsValid held_two-IsWithin stored_three

abbrev navigation : CookieContext
navigation = record { initiator = none; is_top_level_navigation = true }

abbrev any_text : Text → Option Text
any_text t = some t

abbrev last_record : CookieRecord
last_record = record {
  name = ascii "n";
  value = ascii "4";
  domain = site;
  host_only = false;
  path = ascii "/";
  secure = false;
  http_only = false;
  same_site = lax;
  partitioned = false;
  expires = none;
  creation_seq = u64_max;
  last_access_seq = 0;
}

-- A record whose `expires` is past the clock's end.
abbrev late_record : CookieRecord
late_record = record last_record { expires = some (pos (2 ^ 62)) }

late_record-Overflows : Overflows clock late_record
unfolding expires_of epoch_seconds_to_system_time
late_record-Overflows = refl

abbrev three_calls : List Operation
three_calls =
    keep (some request) (set_one ∷ set_three ∷ [])
    ∷ serve (some request) navigation
    ∷ restore (from_secs 2000) (last_record ∷ late_record ∷ [])
    ∷ []

run-new-EndsWithin_example :
    EndsWithin one_list clock plain
      (λ t. some t)
      tight
      (Any (Panics one_list clock plain (λ t. some t) tight) three_calls)
      (run one_list clock plain (λ t. some t) tight three_calls new)
run-new-EndsWithin_example = run-new-EndsWithin one_list clock plain (λ t. some t) tight three_calls

put_record-Updated_example :
    (b' : Bucket) × (put_record (entry_of none last_record) two ≡ some b')
    × Updated two (entry_of none last_record).cookie (some (entry_of none last_record)) b'
put_record-Updated_example = put_record-Updated (entry_of none last_record) two two-IsIndexed

import-IsWithin_example :
    EndsAs one_list clock
      (λ jar'. IsWithin default jar'.0)
      (late_record ∷ [])
      (import one_list clock default (from_secs 2000) (late_record ∷ []) (held_two, start))
import-IsWithin_example =
    import-IsWithin one_list clock default (from_secs 2000) (late_record ∷ []) (held_two, start)
      held_two-IsValid

admissible : is_admissible (from_secs 2000) none last_record ≡ true
unfolding is_admissible entry_of is_expired is_representable keeps_name_prefix_promise
    has_host_prefix has_secure_prefix starts_with_ignore_ascii_case eq_ignore_ascii_case
    to_ascii_lowercase lower is_nil
admissible = refl

abbrev cookie_four : Cookie
cookie_four = record entry_three.cookie { name = ascii "z" }

import_record-put_two_example :
    (jar' : Jar) × (e f : Entry) × (b' : Bucket) × (n' : Counters) × (import_record one_list clock
        (from_secs 2000)
        last_record
        (held_two, start)
      ≡ some (finished jar'))
    × (put_two entry_three.cookie cookie_four two jar'.1 ≡ some (b', n'))
    × (b'.entries ≡ (two.entries ++ e ∷ []) ++ f ∷ [])
    × (e.cookie ≡ entry_three.cookie)
    × (f.cookie ≡ cookie_four)
    × (before e f ≡ false)
unfolding expires_of
import_record-put_two_example =
    import_record-put_two one_list clock (from_secs 2000) last_record none (held_two, start)
      entry_three.cookie cookie_four two held_two-IsValid refl admissible refl (omega arith) refl
