-- ===== src/Cookie/Jar/Storing.antt =====
-- `Jar::store` of crates/chromulate-cookie/src/jar.rs: the `Set-Cookie` headers of one response.
-- `none` is a panic on a position out of range; Counts shows that there is none.
use chromulate.Prelude.{
  ℕ, ◌*◌, min, Bool, false, ◌||◌, Option, none, some, List, [], ◌∷◌, ◌++◌, ltb, if◌then◌else◌,
  length, ◌==◌,
}
use chromulate.Prelude.Time.{Instant}
use chromulate.Prelude.Text.{Text, text_comparable, u64_max}
use chromulate.Prelude.Headers.{HeaderMaps}
use chromulate.Cache.Date.{Platform}
use chromulate.Cookie.Domain.{Suffixes, site_of}
use chromulate.Cookie.Parsing.{Cookie, Request, parse}
use chromulate.Cookie.Bucket.{Bucket, remove_expired, trim_to}
use chromulate.Cookie.Jar.{
  JarLimits, purge_target, domain_purge_target, Store, Counters, apply_set_cookie, bucket_of,
  with_site,
}
use chromulate.Cookie.Jar.Eviction.{enforce_total}

abbrev pub Jar : Type 0
Jar = Store × Counters

-- A bucket past a bound loses what has expired, and is then trimmed to a target.
unfoldable pub held_down : Instant → (bound target : ℕ) → Bucket → Bucket
held_down now bound target b =
    if ltb bound (length b.entries) then trim_to target (remove_expired now b) else b

unfoldable pub store_cookie : JarLimits → Request → Text → Cookie → Jar → Option Jar
unfolding held_down
store_cookie limits request site cookie (store, n) =
    elim (apply_set_cookie request.now request.is_secure cookie (bucket_of site store) n) [
      | none ↦ none
      | some (b, n') ↦
          let b' : Bucket =
            held_down request.now (min (limits.per_domain * 2) u64_max) limits.per_domain b in
          some (with_site site b' store, n')
    ]

unfoldable pub seen : Text → List Text → Bool
seen site [] = false
seen site (t ∷ touched) = t == site || seen site touched

unfoldable pub touch : Text → List Text → List Text
unfolding seen
touch site touched = if seen site touched then touched else touched ++ site ∷ []

module _ (ps : Suffixes) (p : Platform) (hm : HeaderMaps) where
  -- The loop over the headers: the sites it has touched, and the jar.
  unfoldable pub store_headers :
      JarLimits → Request → List Text → List Text → Jar → Option (List Text × Jar)
  unfolding store_cookie touch
  store_headers limits request [] touched jar = some (touched, jar)
  store_headers limits request (header ∷ headers) touched jar =
      elim (parse ps p hm header request) [
        | none ↦ store_headers limits request headers touched jar
        | some cookie ↦
            let site : Text = site_of ps cookie.domain in
            elim (store_cookie limits request site cookie jar) [
              | none ↦ none
              | some jar' ↦ store_headers limits request headers (touch site touched) jar'
            ]
      ]

-- The pass over the sites that the headers touched.
unfoldable pub tidy_touched : JarLimits → Instant → List Text → Store → Store
unfolding held_down
tidy_touched limits now [] store = store
tidy_touched limits now (site ∷ touched) store = tidy_touched limits now touched (
    with_site site
      (held_down now limits.per_domain (domain_purge_target limits) (bucket_of site store)) store)

module _ (ps : Suffixes) (p : Platform) (hm : HeaderMaps) where
  -- `Jar::store`; a URL without an origin is no request.
  unfoldable pub store : JarLimits → Option Request → List Text → Jar → Option Jar
  unfolding store_headers tidy_touched
  store limits none headers jar = some jar
  store limits (some request) headers jar =
      elim (store_headers ps p hm limits request headers [] jar) [
        | none ↦ none
        | some (touched, (after, n)) ↦ some (
          enforce_total request.now limits.total (purge_target limits)
              (tidy_touched limits request.now touched after),
          n,
        )
      ]
