-- ===== src/Cookie/Jar/Limits.antt =====
-- `Jar::store` and `Jar::import` of crates/chromulate-cookie/src/jar.rs keep the jar within its
-- limits.
use chromulate.Prelude.{
  ℕ, ◌≤◌, Option, none, some, List, [], ◌∷◌, ◌≡◌, inl, inr, refl, subst, arith, nat_beq, length,
  All, Bool-cases,
}
use chromulate.Prelude.Time.{Instant}
use chromulate.Prelude.Text.{Text}
use chromulate.Prelude.Headers.{HeaderMaps}
use chromulate.Cache.Date.{Platform}
use chromulate.Cookie.Domain.{Suffixes}
use chromulate.Cookie.Parsing.{Request}
use chromulate.Cookie.Bucket.{Bucket, remove_expired, trim_to}
use chromulate.Cookie.Bucket.Trimmed.{length-trim_to}
use chromulate.Cookie.Jar.{JarLimits, purge_target, Store}
use chromulate.Cookie.Jar.Counts.{
  IsValid, All-bucket_of, tidy_every_site-IsValid, enforce_total-IsValid,
}
use chromulate.Cookie.Jar.Capacity.{held_of, held_of-store, enforce_total_le}
use chromulate.Cookie.Jar.Ceiling.{total-enforce_total}
use chromulate.Cookie.Jar.Eviction.{enforce_total, tidied, tidy_every_site, recount}
use chromulate.Cookie.Jar.Storing.{Jar, tidy_touched, store}
use chromulate.Cookie.Jar.Upkeep.{store_headers-IsValid, tidy_touched-IsValid}
use chromulate.Cookie.Jar.Snapshot.{CookieRecord, import}
use chromulate.Cookie.Jar.Restoring.{EndsAs, import_records-EndsAs}

-- At most `per_domain` cookies of each site, and at most `total` in all.
pub record IsWithin (limits : JarLimits) (st : Store) : Type 0 where
  pub per_domain : (site : Text) → held_of site st ≤ limits.per_domain
  pub total : st.total ≤ limits.total

purge_target_le : (limits : JarLimits) → purge_target limits ≤ limits.total
unfolding purge_target
purge_target_le limits = omega arith

enforce_total_ceiling :
    (limits : JarLimits) (now : Instant) (st : Store)
    → IsValid st
    → (enforce_total now limits.total (purge_target limits) st).total ≤ limits.total
enforce_total_ceiling limits now st v = ground (
  arith,
  total-enforce_total now limits.total (purge_target limits) st v (purge_target_le limits),
  purge_target_le limits,
)

tidied_le :
    (now : Instant) (cap : ℕ) (sites : List (Text × Bucket))
    → All (λ (x : Text × Bucket). length x.1.entries ≤ cap) (tidied now cap sites)
unfolding tidied
tidied_le now cap [] = tt
tidied_le now cap ((site, b) ∷ sites) =
    let b' : Bucket = trim_to cap (remove_expired now b) in
    elim (Bool-cases (nat_beq (length b'.entries) 0)) [
      | inl e ↦ rw e (tidied_le now cap sites)
      | inr e ↦
          rw e (omega (arith, length-trim_to cap (remove_expired now b)), tidied_le now cap sites)
    ]

tidy_every_site_le :
    (now : Instant) (cap : ℕ) (st : Store) (k : Text) → held_of k (tidy_every_site now cap st) ≤ cap
unfolding tidy_every_site recount
tidy_every_site_le now cap st k =
    All-bucket_of (λ b. length b.entries ≤ cap) k (tidy_every_site now cap st) (omega arith)
      (tidied_le now cap st.sites)

module _ (ps : Suffixes) (p : Platform) where
  -- From a valid jar, `import` makes no read out of range, whatever the records are, and leaves a
  -- valid jar. Either it finishes, where every record's `expires` is a time that the platform's
  -- clock can represent, and the jar then has at most `per_domain` cookies of each site and at most
  -- `total` in all; or it panics, where the clock cannot represent some record's `expires`.
  pub import-IsWithin :
      (limits : JarLimits) (now : Instant) (records : List CookieRecord) (jar : Jar)
      → IsValid jar.0
      → EndsAs ps p (λ jar'. IsWithin limits jar'.0) records (import ps p limits now records jar)
  unfolding import
  import-IsWithin limits now records jar v = elim (import_records-EndsAs ps p now records jar v) [
    | inr (mid, ends, v', o) ↦ inr (mid, rw (ends, import) refl, v', o)
    | inl (mid, ends, v', _, fits) ↦
        let tidy : Store = tidy_every_site now limits.per_domain mid.0 in
        let v'' = tidy_every_site-IsValid now limits.per_domain mid.0 v' in
        inl (
          (enforce_total now limits.total (purge_target limits) tidy, mid.1),
          rw (ends, import) refl,
          enforce_total-IsValid now limits.total (purge_target limits) tidy v'',
          record {
            per_domain =
                enforce_total_le now limits.total (purge_target limits) limits.per_domain tidy v''
                  (tidy_every_site_le now limits.per_domain mid.0);
            total = enforce_total_ceiling limits now tidy v'';
          },
          fits,
        )
  ]

module _ (ps : Suffixes) (p : Platform) (hm : HeaderMaps) where
  total-store :
      (limits : JarLimits) (origin : Option Request) (headers : List Text) (jar jar' : Jar)
      → IsValid jar.0
      → jar.0.total ≤ limits.total
      → store ps p hm limits origin headers jar ≡ some jar'
      → jar'.0.total ≤ limits.total
  unfolding store
  total-store limits none headers jar jar' v w h =
      let same : jar ≡ jar' = ground (arith, h) in
      subst (λ (j : Jar). j.0.total ≤ limits.total) same w
  total-store limits (some request) headers jar jar' v w h =
      let (touched, mid, ends, v') =
        store_headers-IsValid ps p hm limits request headers [] jar v in
      let tidy : Store = tidy_touched limits request.now touched mid.0 in
      let same : (enforce_total request.now limits.total (purge_target limits) tidy, mid.1) ≡ jar' =
        ground (arith, h, ends) in
      subst (λ (j : Jar). j.0.total ≤ limits.total) same
        (enforce_total_ceiling limits request.now tidy
          (tidy_touched-IsValid limits request.now touched mid.0 v'))

  -- From a valid jar within its limits, `store` leaves at most `per_domain` cookies of each site
  -- and at most `total` in all, however many headers the response has.
  pub store-IsWithin :
      (limits : JarLimits) (origin : Option Request) (headers : List Text) (jar jar' : Jar)
      → IsValid jar.0
      → IsWithin limits jar.0
      → store ps p hm limits origin headers jar ≡ some jar'
      → IsWithin limits jar'.0
  store-IsWithin limits origin headers jar jar' v w h = record {
    per_domain = λ site. held_of-store ps p hm limits origin headers jar jar' site v w.per_domain h;
    total = total-store limits origin headers jar jar' v w.total h;
  }
