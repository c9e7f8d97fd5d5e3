-- ===== src/Cookie/Jar/Wrap.antt =====
-- The counter of creations behind `Jar::import` of crates/chromulate-cookie/src/jar.rs.
use chromulate.Prelude.{
  ◌≤◌, true, false, Option, none, some, [], ◌∷◌, ◌++◌, ◌≡◌, refl, arith, length,
}
use chromulate.Prelude.Time.{Instant}
use chromulate.Prelude.Text.{Text, u64_max}
use chromulate.Cache.Date.{Platform}
use chromulate.Cookie.Domain.{Suffixes, site_of}
use chromulate.Cookie.Parsing.{Cookie}
use chromulate.Cookie.Bucket.{Entry, Bucket, push}
use chromulate.Cookie.Jar.{Counters, bumped, put_cookie, bucket_of, with_site}
use chromulate.Cookie.Jar.Counts.{IsValid, bucket_of-IsIndexed}
use chromulate.Cookie.Jar.Restoring.{put_record-Updated}
use chromulate.Cookie.Jar.Serving.{before}
use chromulate.Cookie.Jar.Storing.{Jar}
use chromulate.Cookie.Jar.Snapshot.{
  CookieRecord, finished, expires_of, is_admissible, raised, import_record, entry_of,
}

-- Two new cookies, one behind the other.
unfoldable pub put_two : Cookie → Cookie → Bucket → Counters → Option (Bucket × Counters)
put_two first second b n = elim (put_cookie first none b n) [
  | none ↦ none
  | some (b', n') ↦ put_cookie second none b' n'
]

put_two_wraps :
    (first second : Cookie) (b : Bucket) (n : Counters)
    → length first.path ≡ length second.path
    → n.creation ≡ u64_max
    → (e f : Entry) × (b' : Bucket) × (n' : Counters) × (put_two first second b n ≡ some (b', n'))
      × (b'.entries ≡ (b.entries ++ e ∷ []) ++ f ∷ [])
      × (e.cookie ≡ first)
      × (f.cookie ≡ second)
      × (before e f ≡ false)
unfolding put_two put_cookie push before
put_two_wraps first second b n same top =
    let e : Entry = record {
      cookie = first;
      creation_seq = n.creation;
      last_access_seq = n.access;
    } in
    let f : Entry = record {
      cookie = second;
      creation_seq = bumped n.creation;
      last_access_seq = bumped n.access;
    } in
    let b' : Bucket = push f (push e b) in
    let n' : Counters = record {
      creation = bumped (bumped n.creation);
      access = bumped (bumped n.access);
    } in
    (e, f, b', n', refl, refl, refl, refl, ground (arith, same, top))

module _ (ps : Suffixes) (p : Platform) where
  -- When `import` has taken a record with the creation number 2^64 - 1, the saturated counter hands
  -- that number out once more and wraps: of two new cookies put one behind the other into any
  -- bucket, with paths of one length, the later one has the earlier place in the order of the
  -- `Cookie` header.
  pub import_record-put_two :
      (now : Instant) (r : CookieRecord) (expires : Option Instant) (jar : Jar)
      (first second : Cookie) (b : Bucket)
      → IsValid jar.0
      → expires_of p r ≡ some expires
      → is_admissible now expires r ≡ true
      → r.creation_seq ≡ u64_max
      → jar.1.creation ≤ u64_max
      → length first.path ≡ length second.path
      → (jar' : Jar) × (e f : Entry) × (b' : Bucket) × (n' : Counters) × (import_record ps p now r
            jar
          ≡ some (finished jar'))
        × (put_two first second b jar'.1 ≡ some (b', n'))
        × (b'.entries ≡ (b.entries ++ e ∷ []) ++ f ∷ [])
        × (e.cookie ≡ first)
        × (f.cookie ≡ second)
        × (before e f ≡ false)
  unfolding import_record
  import_record-put_two now r expires (st, n) first second b v held_time ok top fits same =
      let site : Text = site_of ps r.domain in
      let (held, ends, updated) =
        put_record-Updated (entry_of expires r) (bucket_of site st)
          (bucket_of-IsIndexed site st v) in
      let n' : Counters = record {
        creation = raised n.creation r.creation_seq;
        access = raised n.access r.last_access_seq;
      } in
      let full : n'.creation ≡ u64_max = ground (arith, top, fits) in
      let (e, f, b', m, puts, entries, is_first, is_second, later) =
        put_two_wraps first second b n' same full in
      (
        (with_site site held st, n'),
        e,
        f,
        b',
        m,
        rw (held_time, ok, ends, import_record) refl,
        puts,
        entries,
        is_first,
        is_second,
        later,
      )
