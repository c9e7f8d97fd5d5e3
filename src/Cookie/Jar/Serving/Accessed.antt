-- ===== src/Cookie/Jar/Serving/Accessed.antt =====
-- What the new access numbers of `cookies_for` of crates/chromulate-cookie/src/jar.rs leave alone.
use chromulate.Prelude.{
  ℕ, zero, suc, Bool, Option, none, some, List, [], ◌∷◌, ◌≡◌, inl, inr, refl, sym, ap, ◌∙◌, subst,
  arith, if◌then◌else◌, length, get_elem?, Option-cases, Bool-cases,
}
use chromulate.Prelude.Text.{Text, text_comparable}
use chromulate.Prelude.Assoc.{
  lookup, insert, All-insert, insert-Distinct, lookup-insert, sum_by-insert,
}
use chromulate.Cookie.Domain.{Suffixes, site_of}
use chromulate.Cookie.Parsing.{Request}
use chromulate.Cookie.Bucket.{Entry, identity_comparable, Bucket}
use chromulate.Cookie.Bucket.Bulk.{entry_key, IsIndexed}
use chromulate.Cookie.Jar.{JarLimits, Store, bumped}
use chromulate.Cookie.Jar.Counts.{IsValid, bucket_length, bucket_of-IsIndexed}
use chromulate.Cookie.Jar.Limits.{IsWithin}
use chromulate.Cookie.Jar.Storing.{Jar}
use chromulate.Cookie.Jar.Serving.{
  CookieContext, is_match, matches_in, header_of, accessed, cookies_for,
}

accessed-get_elem? :
    (q : Entry → Bool) (n : ℕ) (es : List Entry) (i : ℕ)
    → get_elem? (accessed q n es) i ≡ (elim (get_elem? es i) [
      | none ↦ none
      | some e ↦ some (if q e then record e { last_access_seq = n } else e)
    ])
unfolding accessed
accessed-get_elem? q n [] i = refl
accessed-get_elem? q n (e ∷ es) zero = elim (Bool-cases (q e)) [
  | inl h ↦ rw h refl
  | inr h ↦ rw h refl
]
accessed-get_elem? q n (e ∷ es) (suc i) = elim (Bool-cases (q e)) [
  | inl h ↦ rw h (accessed-get_elem? q n es i)
  | inr h ↦ rw h (accessed-get_elem? q n es i)
]

length-accessed :
    (q : Entry → Bool) (n : ℕ) (es : List Entry) → length (accessed q n es) ≡ length es
unfolding accessed
length-accessed q n [] = refl
length-accessed q n (e ∷ es) = ground (arith, length-accessed q n es)

entry_key-accessed :
    (q : Entry → Bool) (n : ℕ) (e : Entry)
    → entry_key (if q e then record e { last_access_seq = n } else e) ≡ entry_key e
entry_key-accessed q n e = elim (Bool-cases (q e)) [ inl h ↦ rw h refl | inr h ↦ rw h refl ]

-- A new access number changes no identity.
accessed-IsIndexed :
    (q : Entry → Bool) (n : ℕ) (b : Bucket)
    → IsIndexed b
    → IsIndexed (record b { entries = accessed q n b.entries })
accessed-IsIndexed q n b v = record {
  located = λ i x h. elim (Option-cases (get_elem? b.entries i)) [
    | inl m ↦ absurd (ground (arith, accessed-get_elem? q n b.entries i, h, m))
    | inr (e, m) ↦
        let is : (if q e then record e { last_access_seq = n } else e) ≡ x =
          ground (arith, accessed-get_elem? q n b.entries i, h, m) in
        subst (λ k. lookup k b.index ≡ some i) (sym (entry_key-accessed q n e) ∙ ap entry_key is)
          (v.located i e m)
  ];
  sound = λ k i h.
      let (e, m, is) = v.sound k i h in
      (
        if q e then record e { last_access_seq = n } else e,
        ground (arith, accessed-get_elem? q n b.entries i, m),
        entry_key-accessed q n e ∙ is,
      );
  distinct = v.distinct;
}

-- What holds of the jar before and with new access numbers in the request's site holds after.
cookies_for-keeps :
    (P : Store → Type 0) (ps : Suffixes) (from_str : Text → Option Text) (origin : Option Request)
    (context : CookieContext) (jar : Jar)
    → P jar.0
    → ((site : Text) (b : Bucket) (q : Entry → Bool) (n : ℕ)
        → lookup site jar.0.sites ≡ some b
        → P (record jar.0 {
          sites = insert site (record b { entries = accessed q n b.entries }) jar.0.sites;
        }))
    → P (cookies_for ps from_str origin context jar).1.0
unfolding cookies_for
cookies_for-keeps P ps from_str none context (st, n) old touched = old
cookies_for-keeps P ps from_str (some request) context (st, n) old touched =
    elim (Option-cases (lookup (site_of ps request.host) st.sites)) [
      | inl m ↦ rw (m, cookies_for) old
      | inr (b, m) ↦
          rw (m, cookies_for)
            (from b (matches_in ps request context b)
              (touched (site_of ps request.host) b (is_match ps request context) n.access m))
    ]
  where
    from :
        (b : Bucket) (ms : List Entry)
        → P (record st {
          sites =
              insert
                (site_of ps request.host)
                (record b { entries = accessed (is_match ps request context) n.access b.entries })
                st.sites;
        })
        → (let served : Option Text × Jar = elim ms [
          | [] ↦ (none, (st, n))
          | e ∷ es ↦ (
            header_of from_str (e ∷ es),
            (
              record st {
                sites =
                    insert
                      (site_of ps request.host)
                      (record b {
                        entries = accessed (is_match ps request context) n.access b.entries;
                      })
                      st.sites;
              },
              record n { access = bumped n.access },
            ),
          )
        ] in
            P served.1.0)
    from b [] h = old
    from b (e ∷ es) h = h

pub cookies_for-IsValid :
    (ps : Suffixes) (from_str : Text → Option Text) (origin : Option Request)
    (context : CookieContext) (jar : Jar)
    → IsValid jar.0
    → IsValid (cookies_for ps from_str origin context jar).1.0
cookies_for-IsValid ps from_str origin context jar v =
    cookies_for-keeps IsValid ps from_str origin context jar v (λ site b q n m.
      let b' : Bucket = record b { entries = accessed q n b.entries } in
      let mine : IsIndexed b =
        subst IsIndexed (ground (arith, m)) (bucket_of-IsIndexed site jar.0 v) in
      record {
        indexed =
            All-insert IsIndexed site b' jar.0.sites (accessed-IsIndexed q n b mine) v.indexed;
        distinct = insert-Distinct site b' jar.0.sites v.distinct;
        total = ground (
          arith,
          v.total,
          sum_by-insert bucket_length site b' jar.0.sites,
          m,
          length-accessed q n b.entries,
        );
      })

pub cookies_for-IsWithin :
    (ps : Suffixes) (from_str : Text → Option Text) (limits : JarLimits) (origin : Option Request)
    (context : CookieContext) (jar : Jar)
    → IsWithin limits jar.0
    → IsWithin limits (cookies_for ps from_str origin context jar).1.0
cookies_for-IsWithin ps from_str limits origin context jar w =
    cookies_for-keeps (IsWithin limits) ps from_str origin context jar w (λ site b q n m.
      let b' : Bucket = record b { entries = accessed q n b.entries } in
      record {
        per_domain = λ k. ground (
          arith,
          lookup-insert site k b' jar.0.sites,
          w.per_domain k,
          w.per_domain site,
          m,
          length-accessed q n b.entries,
        );
        total = w.total;
      })
