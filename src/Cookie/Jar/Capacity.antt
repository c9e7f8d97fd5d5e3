-- ===== src/Cookie/Jar/Capacity.antt =====
-- `Jar::store` of crates/chromulate-cookie/src/jar.rs keeps every bucket within the cap of a domain.
use chromulate.Prelude.{
  ℕ, ◌*◌, ◌≤◌, min, true, ◌||◌, Option, none, some, List, [], ◌∷◌, ◌++◌, ◌≡◌, ◌⊎◌, inl, inr, refl,
  sym, ap, ◌∙◌, subst, arith, ltb, leb, nat_beq, if◌then◌else◌, length, ◌==◌, Option-cases,
  Bool-cases,
}
use chromulate.Prelude.Time.{Instant}
use chromulate.Prelude.Text.{Text, text_comparable, u64_max}
use chromulate.Prelude.Headers.{HeaderMaps}
use chromulate.Prelude.Assoc.{insert, lookup-insert, lookup-remove, insert-Distinct}
use chromulate.Cache.Date.{Platform}
use chromulate.Cookie.Domain.{Suffixes, site_of}
use chromulate.Cookie.Parsing.{Cookie, Request, parse}
use chromulate.Cookie.Bucket.{Bucket, remove_expired, remove_all}
use chromulate.Cookie.Bucket.Bulk.{remove_all-IsIndexed}
use chromulate.Cookie.Bucket.Trimmed.{length-trim_to, length-remove_all_le}
use chromulate.Cookie.Jar.{
  JarLimits, purge_target, domain_purge_target, Store, apply_set_cookie, bucket_of, with_site,
}
use chromulate.Cookie.Jar.Counts.{IsValid, with_site-IsValid, bucket_of-IsIndexed}
use chromulate.Cookie.Jar.Eviction.{evict, victims_in, enforce_total}
use chromulate.Cookie.Jar.Storing.{
  Jar, held_down, store_cookie, seen, touch, store_headers, tidy_touched, store,
}
use chromulate.Cookie.Jar.Upkeep.{store_cookie-EndsValid, held_down-IsIndexed, tidy_touched-IsValid}

-- How many cookies the jar holds of a site.
abbrev pub held_of : Text → Store → ℕ
held_of site st = length (bucket_of site st).entries

pub held_of-with_site :
    (k site : Text) (b : Bucket) (st : Store)
    → IsValid st
    → held_of k (with_site site b st) ≡ (if site == k then length b.entries else held_of k st)
unfolding with_site
held_of-with_site k site b st v =
    let put = lookup-insert site k b st.sites in
    let gone =
      lookup-remove site k (insert site b st.sites) (insert-Distinct site b st.sites v.distinct) in
    elim (Bool-cases (nat_beq (length b.entries) 0)) [
      | inl e ↦ elim (Bool-cases (site == k)) [
        | inl s ↦ rw (e, gone, s, bucket_of) (ground (arith, e))
        | inr s ↦ rw (e, gone, put, s, bucket_of) refl
      ]
      | inr e ↦ elim (Bool-cases (site == k)) [
        | inl s ↦ rw (e, put, s, bucket_of) refl
        | inr s ↦ rw (e, put, s, bucket_of) refl
      ]
    ]

held_down_le :
    (now : Instant) (bound target : ℕ) (b : Bucket)
    → target ≤ bound
    → length (held_down now bound target b).entries ≤ bound
unfolding held_down
held_down_le now bound target b h = elim (Bool-cases (ltb bound (length b.entries))) [
  | inl e ↦ rw e (omega (arith, length-trim_to target (remove_expired now b)))
  | inr e ↦ rw e (ground (arith, e))
]

-- Every site is within the cap but for those of a list.
abbrev Within : ℕ → List Text → Store → Type 0
Within cap rest st = (k : Text) → (held_of k st ≤ cap) ⊎ (seen k rest ≡ true)

domain_purge_target_le : (limits : JarLimits) → domain_purge_target limits ≤ limits.per_domain
unfolding domain_purge_target
domain_purge_target_le limits = omega arith

tidy_touched_le :
    (limits : JarLimits) (now : Instant) (touched : List Text) (st : Store)
    → IsValid st
    → Within limits.per_domain touched st
    → (k : Text) → held_of k (tidy_touched limits now touched st) ≤ limits.per_domain
unfolding tidy_touched seen
tidy_touched_le limits now [] st v w k = elim (w k) [
  | inl h ↦ h
  | inr h ↦ absurd (ground (arith, h))
]
tidy_touched_le limits now (site ∷ touched) st v w k =
    let b : Bucket = bucket_of site st in
    let held : Bucket = held_down now limits.per_domain (domain_purge_target limits) b in
    let v' =
      with_site-IsValid site held st
        (held_down-IsIndexed now limits.per_domain (domain_purge_target limits) b
          (bucket_of-IsIndexed site st v))
        v in
    let w' : Within limits.per_domain touched (with_site site held st) = λ j.
      let reads = held_of-with_site j site held st v in
      elim (Bool-cases (site == j)) [
        | inl e ↦ inl (
            subst (λ n. n ≤ limits.per_domain) (sym (reads ∙ rw e refl))
              (held_down_le now limits.per_domain (domain_purge_target limits) b
                (domain_purge_target_le limits)))
        | inr e ↦ elim (w j) [
          | inl h ↦ inl (subst (λ n. n ≤ limits.per_domain) (sym (reads ∙ rw e refl)) h)
          | inr h ↦ inr (ground (arith, h, e))
        ]
      ] in
    tidy_touched_le limits now touched (with_site site held st) v' w' k

evict_le :
    (cap : ℕ) (victims : List (Text × List ℕ)) (st : Store)
    → IsValid st
    → ((k : Text) → held_of k st ≤ cap)
    → (k : Text) → held_of k (evict victims st) ≤ cap
unfolding evict
evict_le cap [] st v h k = h k
evict_le cap ((site, positions) ∷ victims) st v h k =
    let b : Bucket = remove_all positions (bucket_of site st) in
    let v' =
      with_site-IsValid site b st
        (remove_all-IsIndexed positions (bucket_of site st) (bucket_of-IsIndexed site st v)) v in
    evict_le cap victims (with_site site b st) v'
      (λ j. ground (
        arith,
        held_of-with_site j site b st v,
        h j,
        h site,
        length-remove_all_le positions (bucket_of site st),
      ))
      k

pub enforce_total_le :
    (now : Instant) (total target cap : ℕ) (st : Store)
    → IsValid st
    → ((k : Text) → held_of k st ≤ cap)
    → (k : Text) → held_of k (enforce_total now total target st) ≤ cap
unfolding enforce_total
enforce_total_le now total target cap st v h k = elim (Bool-cases (leb st.total total)) [
  | inl e ↦ rw e (h k)
  | inr e ↦ rw e (evict_le cap (victims_in now target st) st v h k)
]

seen-append :
    (site k : Text) (touched : List Text)
    → seen k (touched ++ site ∷ []) ≡ (seen k touched || site == k)
unfolding seen
seen-append site k [] = ground arith
seen-append site k (t ∷ touched) = ground (arith, seen-append site k touched)

-- What a step of the loop over the headers adds to the touched sites.
seen-touch :
    (site k : Text) (touched : List Text)
    → ((site == k) || seen k touched) ≡ true
    → seen k (touch site touched) ≡ true
unfolding touch
seen-touch site k touched h = elim (Bool-cases (seen site touched)) [
  | inl e ↦ rw e (elim (Bool-cases (site == k)) [
    | inl s ↦ ap (λ j. seen j touched) (sym ((text_comparable.same_iff site k).0 s)) ∙ e
    | inr s ↦ ground (arith, h, s)
  ])
  | inr e ↦ rw e (ground (arith, seen-append site k touched, h))
]

-- `store_cookie` changes the bucket of one site.
store_cookie-with_site :
    (limits : JarLimits) (request : Request) (site : Text) (cookie : Cookie) (jar jar' : Jar)
    → store_cookie limits request site cookie jar ≡ some jar'
    → (b : Bucket) × (with_site site b jar.0 ≡ jar'.0)
unfolding store_cookie
store_cookie-with_site limits request site cookie (st, n) jar' h =
    elim (Option-cases
      (apply_set_cookie request.now request.is_secure cookie (bucket_of site st) n)) [
        | inl e ↦ absurd (ground (arith, h, e))
        | inr ((b, n'), e) ↦
            let held : Bucket =
              held_down request.now (min (limits.per_domain * 2) u64_max) limits.per_domain b in
            let same : (with_site site held st, n') ≡ jar' = ground (arith, h, e) in
            (held, ap (λ (j : Jar). j.0) same)
      ]

Within-touch :
    (limits : JarLimits) (request : Request) (site : Text) (cookie : Cookie) (touched : List Text)
    (jar jar' : Jar)
    → IsValid jar.0
    → Within limits.per_domain touched jar.0
    → store_cookie limits request site cookie jar ≡ some jar'
    → Within limits.per_domain (touch site touched) jar'.0
Within-touch limits request site cookie touched jar jar' v w h k =
    let (b, is) = store_cookie-with_site limits request site cookie jar jar' h in
    elim (Bool-cases (site == k)) [
      | inl e ↦ inr (seen-touch site k touched (ground (arith, e)))
      | inr e ↦
          let reads : held_of k jar'.0 ≡ held_of k jar.0 =
            ap (held_of k) (sym is) ∙ held_of-with_site k site b jar.0 v ∙ rw e refl in
          elim (w k) [
            | inl l ↦ inl (subst (λ n. n ≤ limits.per_domain) (sym reads) l)
            | inr l ↦ inr (seen-touch site k touched (ground (arith, e, l)))
          ]
    ]

module _ (ps : Suffixes) (p : Platform) (hm : HeaderMaps) where
  store_headers-Within :
      (limits : JarLimits) (request : Request) (headers touched touched' : List Text)
      (jar jar' : Jar)
      → IsValid jar.0
      → Within limits.per_domain touched jar.0
      → store_headers ps p hm limits request headers touched jar ≡ some (touched', jar')
      → IsValid jar'.0 × Within limits.per_domain touched' jar'.0
  unfolding store_headers
  store_headers-Within limits request [] touched touched' jar jar' v w h =
      let same : (touched, jar) ≡ (touched', jar') = ground (arith, h) in
      subst (λ (t : List Text × Jar). IsValid t.1.0 × Within limits.per_domain t.0 t.1.0) same
        (v, w)
  store_headers-Within limits request (header ∷ headers) touched touched' jar jar' v w h =
      elim (Option-cases (parse ps p hm header request)) [
        | inl n ↦
            store_headers-Within limits request headers touched touched' jar jar' v w
              (ground (arith, h, n))
        | inr (cookie, n) ↦
            let site : Text = site_of ps cookie.domain in
            let (mid, ends, v') = store_cookie-EndsValid limits request site cookie jar v in
            store_headers-Within limits request headers (touch site touched) touched' mid jar' v'
              (Within-touch limits request site cookie touched jar mid v w ends)
              (ground (arith, h, n, ends))
      ]

  -- From a valid jar with at most `per_domain` cookies of each site, `store` leaves at most
  -- `per_domain` of each, however many headers the response has.
  pub held_of-store :
      (limits : JarLimits) (origin : Option Request) (headers : List Text) (jar jar' : Jar)
      (k : Text)
      → IsValid jar.0
      → ((site : Text) → held_of site jar.0 ≤ limits.per_domain)
      → store ps p hm limits origin headers jar ≡ some jar'
      → held_of k jar'.0 ≤ limits.per_domain
  unfolding store
  held_of-store limits none headers jar jar' k v w h =
      let same : jar ≡ jar' = ground (arith, h) in
      subst (λ (j : Jar). held_of k j.0 ≤ limits.per_domain) same (w k)
  held_of-store limits (some request) headers jar jar' k v w h =
      elim (Option-cases (store_headers ps p hm limits request headers [] jar)) [
        | inl n ↦ absurd (ground (arith, h, n))
        | inr ((touched, (st, n')), n) ↦
            let (v', w') =
              store_headers-Within limits request headers [] touched jar (st, n') v
                (λ site. inl (w site)) n in
            let tidy : Store = tidy_touched limits request.now touched st in
            let same : (enforce_total request.now limits.total (purge_target limits) tidy, n')
                ≡ jar' =
              ground (arith, h, n) in
            subst (λ (j : Jar). held_of k j.0 ≤ limits.per_domain) same
              (enforce_total_le request.now limits.total (purge_target limits) limits.per_domain
                tidy (tidy_touched-IsValid limits request.now touched st v')
                (tidy_touched_le limits request.now touched st v' w') k)
      ]
