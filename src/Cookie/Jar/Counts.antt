-- ===== src/Cookie/Jar/Counts.antt =====
-- The invariant of the jar of crates/chromulate-cookie/src/jar.rs: every bucket's index fits its
-- entries, no site has two buckets, and the total counts all entries.
use chromulate.Prelude.{
  ℕ, none, List, [], ◌∷◌, ◌≡◌, inl, inr, refl, arith, leb, nat_beq, length, sum_by, All,
  Option-cases, Bool-cases,
}
use chromulate.Prelude.Time.{Instant}
use chromulate.Prelude.Text.{Text, text_comparable}
use chromulate.Prelude.Assoc.{
  lookup, insert, Distinct, lookup-insert, insert-Distinct, remove-Distinct, sum_by-insert,
  sum_by-remove, All-insert, All-remove, All-lookup,
}
use chromulate.Cookie.Bucket.{
  Bucket, identity_comparable, empty, remove_expired, remove_all, trim_to,
}
use chromulate.Cookie.Bucket.Index.{nil-IsIndex}
use chromulate.Cookie.Bucket.Bulk.{
  entry_key, IsIndexed, remove_expired-IsIndexed, remove_all-IsIndexed, trim_to-IsIndexed,
}
use chromulate.Cookie.Jar.{Store, bucket_of, with_site}
use chromulate.Cookie.Jar.Eviction.{
  evict, victims_in, enforce_total, tidied, tidy_every_site, recount,
}

abbrev pub bucket_length : Bucket → ℕ
bucket_length b = length b.entries

pub record IsValid (store : Store) : Type 0 where
  pub indexed : All (λ (x : Text × Bucket). IsIndexed x.1) store.sites
  pub distinct : Distinct store.sites
  pub total : store.total ≡ sum_by (λ (x : Text × Bucket). bucket_length x.1) store.sites

pub All-bucket_of :
    (P : Bucket → Type 0) (site : Text) (store : Store)
    → P empty
    → All (λ (x : Text × Bucket). P x.1) store.sites
    → P (bucket_of site store)
All-bucket_of P site store e a = elim (Option-cases (lookup site store.sites)) [
  | inl n ↦ rw (n, bucket_of) e
  | inr (b, n) ↦ rw (n, bucket_of) (All-lookup P site b store.sites a n)
]

pub bucket_of-IsIndexed :
    (site : Text) (store : Store) → IsValid store → IsIndexed (bucket_of site store)
bucket_of-IsIndexed site store v =
    All-bucket_of IsIndexed site store (nil-IsIndex entry_key) v.indexed

pub with_site-All :
    (P : Bucket → Type 0) (site : Text) (b : Bucket) (store : Store)
    → P b
    → All (λ (x : Text × Bucket). P x.1) store.sites
    → All (λ (x : Text × Bucket). P x.1) (with_site site b store).sites
unfolding with_site
with_site-All P site b store h a =
    let put = All-insert P site b store.sites h a in
    elim (Bool-cases (nat_beq (length b.entries) 0)) [
      | inl e ↦ rw e (All-remove P site (insert site b store.sites) put)
      | inr e ↦ rw e put
    ]

with_site-Distinct :
    (site : Text) (b : Bucket) (store : Store)
    → Distinct store.sites
    → Distinct (with_site site b store).sites
unfolding with_site
with_site-Distinct site b store d =
    let put = insert-Distinct site b store.sites d in
    elim (Bool-cases (nat_beq (length b.entries) 0)) [
      | inl e ↦ rw e (remove-Distinct site (insert site b store.sites) put)
      | inr e ↦ rw e put
    ]

with_site_total :
    (site : Text) (b : Bucket) (store : Store)
    → store.total ≡ sum_by (λ (x : Text × Bucket). bucket_length x.1) store.sites
    → (with_site site b store).total
      ≡ sum_by (λ (x : Text × Bucket). bucket_length x.1) (with_site site b store).sites
unfolding with_site
with_site_total site b store t =
    let put = sum_by-insert bucket_length site b store.sites in
    let gone = sum_by-remove bucket_length site (insert site b store.sites) in
    ground (
      arith,
      t,
      put,
      gone,
      lookup-insert site site b store.sites,
      text_comparable.same_iff site site,
    )

pub with_site-IsValid :
    (site : Text) (b : Bucket) (store : Store)
    → IsIndexed b
    → IsValid store
    → IsValid (with_site site b store)
with_site-IsValid site b store i v = record {
  indexed = with_site-All IsIndexed site b store i v.indexed;
  distinct = with_site-Distinct site b store v.distinct;
  total = with_site_total site b store v.total;
}

evict-IsValid :
    (victims : List (Text × List ℕ)) (store : Store) → IsValid store → IsValid (evict victims store)
unfolding evict
evict-IsValid [] store v = v
evict-IsValid ((site, positions) ∷ victims) store v =
    let kept =
      remove_all-IsIndexed positions (bucket_of site store) (bucket_of-IsIndexed site store v) in
    evict-IsValid victims (with_site site (remove_all positions (bucket_of site store)) store)
      (with_site-IsValid site (remove_all positions (bucket_of site store)) store kept v)

pub enforce_total-IsValid :
    (now : Instant) (cap target : ℕ) (store : Store)
    → IsValid store
    → IsValid (enforce_total now cap target store)
unfolding enforce_total
enforce_total-IsValid now cap target store v = elim (Bool-cases (leb store.total cap)) [
  | inl e ↦ rw e v
  | inr e ↦ rw e (evict-IsValid (victims_in now target store) store v)
]

tidied-IsIndexed :
    (now : Instant) (per_domain : ℕ) (sites : List (Text × Bucket))
    → All (λ (x : Text × Bucket). IsIndexed x.1) sites
    → All (λ (x : Text × Bucket). IsIndexed x.1) (tidied now per_domain sites)
unfolding tidied
tidied-IsIndexed now per_domain [] a = tt
tidied-IsIndexed now per_domain ((site, b) ∷ sites) a =
    let here =
      trim_to-IsIndexed per_domain (remove_expired now b) (remove_expired-IsIndexed now b a.0) in
    let rest = tidied-IsIndexed now per_domain sites a.1 in
    elim (Bool-cases (nat_beq (length (trim_to per_domain (remove_expired now b)).entries) 0)) [
      | inl e ↦ rw e rest
      | inr e ↦ rw e (here, rest)
    ]

lookup-tidied-none :
    (now : Instant) (per_domain : ℕ) (site : Text) (sites : List (Text × Bucket))
    → lookup site sites ≡ none
    → lookup site (tidied now per_domain sites) ≡ none
unfolding tidied lookup
lookup-tidied-none now per_domain site [] h = refl
lookup-tidied-none now per_domain site ((s, b) ∷ sites) h =
    ground (arith, h, lookup-tidied-none now per_domain site sites)

tidied-Distinct :
    (now : Instant) (per_domain : ℕ) (sites : List (Text × Bucket))
    → Distinct sites
    → Distinct (tidied now per_domain sites)
unfolding tidied
tidied-Distinct now per_domain [] d = tt
tidied-Distinct now per_domain ((site, b) ∷ sites) d =
    let rest = tidied-Distinct now per_domain sites d.1 in
    elim (Bool-cases (nat_beq (length (trim_to per_domain (remove_expired now b)).entries) 0)) [
      | inl e ↦ rw e rest
      | inr e ↦ rw e (lookup-tidied-none now per_domain site sites d.0, rest)
    ]

pub tidy_every_site-IsValid :
    (now : Instant) (per_domain : ℕ) (store : Store)
    → IsValid store
    → IsValid (tidy_every_site now per_domain store)
unfolding tidy_every_site recount
tidy_every_site-IsValid now per_domain store v = record {
  indexed = tidied-IsIndexed now per_domain store.sites v.indexed;
  distinct = tidied-Distinct now per_domain store.sites v.distinct;
  total = refl;
}
