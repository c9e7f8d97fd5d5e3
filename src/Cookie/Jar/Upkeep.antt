-- ===== src/Cookie/Jar/Upkeep.antt =====
-- `Jar::store` and `Jar::import` of crates/chromulate-cookie/src/jar.rs keep the jar's invariant.
use chromulate.Prelude.{
  ℕ, ◌*◌, min, Option, none, some, List, [], ◌∷◌, ◌≡◌, inl, inr, refl, ltb, length, Option-cases,
  Bool-cases,
}
use chromulate.Prelude.Time.{Instant}
use chromulate.Prelude.Text.{Text, u64_max}
use chromulate.Prelude.Headers.{HeaderMaps}
use chromulate.Cache.Date.{Platform}
use chromulate.Cookie.Domain.{Suffixes, site_of}
use chromulate.Cookie.Parsing.{Cookie, Request, parse}
use chromulate.Cookie.Bucket.{Bucket, remove_expired}
use chromulate.Cookie.Bucket.Bulk.{IsIndexed, remove_expired-IsIndexed, trim_to-IsIndexed}
use chromulate.Cookie.Jar.{
  JarLimits, purge_target, domain_purge_target, Store, bucket_of, with_site,
}
use chromulate.Cookie.Jar.Replacement.{apply_set_cookie-Updated}
use chromulate.Cookie.Jar.Counts.{
  IsValid, bucket_of-IsIndexed, with_site-IsValid, enforce_total-IsValid,
}
use chromulate.Cookie.Jar.Eviction.{enforce_total}
use chromulate.Cookie.Jar.Storing.{
  Jar, held_down, store_cookie, touch, store_headers, tidy_touched, store,
}

pub held_down-IsIndexed :
    (now : Instant) (bound target : ℕ) (b : Bucket)
    → IsIndexed b
    → IsIndexed (held_down now bound target b)
unfolding held_down
held_down-IsIndexed now bound target b v = elim (Bool-cases (ltb bound (length b.entries))) [
  | inl e ↦
      rw e (trim_to-IsIndexed target (remove_expired now b) (remove_expired-IsIndexed now b v))
  | inr e ↦ rw e v
]

-- The operation ends, in a valid jar.
abbrev pub EndsValid : Option Jar → Type 0
EndsValid r = (jar : Jar) × (r ≡ some jar) × IsValid jar.0

pub store_cookie-EndsValid :
    (limits : JarLimits) (request : Request) (site : Text) (cookie : Cookie) (jar : Jar)
    → IsValid jar.0
    → EndsValid (store_cookie limits request site cookie jar)
unfolding store_cookie
store_cookie-EndsValid limits request site cookie (st, n) v =
    let (b, n', ends, updated) =
      apply_set_cookie-Updated request.now request.is_secure cookie (bucket_of site st) n
        (bucket_of-IsIndexed site st v) in
    let held : Bucket =
      held_down request.now (min (limits.per_domain * 2) u64_max) limits.per_domain b in
    (
      (with_site site held st, n'),
      rw (ends, store_cookie) refl,
      with_site-IsValid site held st
          (held_down-IsIndexed request.now (min (limits.per_domain * 2) u64_max) limits.per_domain b
            updated.0)
          v,
    )

pub tidy_touched-IsValid :
    (limits : JarLimits) (now : Instant) (touched : List Text) (st : Store)
    → IsValid st
    → IsValid (tidy_touched limits now touched st)
unfolding tidy_touched
tidy_touched-IsValid limits now [] st v = v
tidy_touched-IsValid limits now (site ∷ touched) st v =
    let held : Bucket =
      held_down now limits.per_domain (domain_purge_target limits) (bucket_of site st) in
    tidy_touched-IsValid limits now touched (with_site site held st) (
      with_site-IsValid site held st
        (held_down-IsIndexed now limits.per_domain (domain_purge_target limits) (bucket_of site st)
          (bucket_of-IsIndexed site st v))
        v)

module _ (ps : Suffixes) (p : Platform) (hm : HeaderMaps) where
  pub store_headers-IsValid :
      (limits : JarLimits) (request : Request) (headers touched : List Text) (jar : Jar)
      → IsValid jar.0
      → (touched' : List Text) × (jar' : Jar) × (store_headers ps p hm limits request headers
            touched jar
          ≡ some (touched', jar'))
        × IsValid jar'.0
  unfolding store_headers
  store_headers-IsValid limits request [] touched jar v = (touched, jar, refl, v)
  store_headers-IsValid limits request (header ∷ headers) touched jar v =
      elim (Option-cases (parse ps p hm header request)) [
        | inl n ↦ rw (n, store_headers) (store_headers-IsValid limits request headers touched jar v)
        | inr (cookie, n) ↦
            let site : Text = site_of ps cookie.domain in
            let (jar', ends, v') = store_cookie-EndsValid limits request site cookie jar v in
            rw (n, ends, store_headers)
              (store_headers-IsValid limits request headers (touch site touched) jar' v')
      ]

  -- From a valid jar, `store` ends without a read out of range, whatever the headers are, and
  -- leaves a valid jar: every bucket's index gives each identity its entry's position, no site has
  -- two buckets, and the total is the number of entries in all buckets.
  pub store-EndsValid :
      (limits : JarLimits) (origin : Option Request) (headers : List Text) (jar : Jar)
      → IsValid jar.0
      → EndsValid (store ps p hm limits origin headers jar)
  unfolding store
  store-EndsValid limits none headers jar v = (jar, refl, v)
  store-EndsValid limits (some request) headers jar v =
      let (touched, jar', ends, v') = store_headers-IsValid limits request headers [] jar v in
      let tidy : Store = tidy_touched limits request.now touched jar'.0 in
      (
        (enforce_total request.now limits.total (purge_target limits) tidy, jar'.1),
        rw (ends, store) refl,
        enforce_total-IsValid request.now limits.total (purge_target limits) tidy
            (tidy_touched-IsValid limits request.now touched jar'.0 v'),
      )
