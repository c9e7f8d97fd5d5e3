-- ===== src/Cookie/Jar/Restoring.antt =====
-- `Jar::import` of crates/chromulate-cookie/src/jar.rs: a record replaces outright what has its
-- identity, and the jar stays valid.
use chromulate.Prelude.{
  Option, none, some, List, [], ◌∷◌, ◌≡◌, ◌⊎◌, inl, inr, refl, ◌∙◌, arith, Option-cases, Bool-cases,
  All, Any,
}
use chromulate.Prelude.Time.{Instant}
use chromulate.Prelude.Text.{Text}
use chromulate.Prelude.Assoc.{lookup}
use chromulate.Cache.Date.{Platform}
use chromulate.Cookie.Domain.{Suffixes, site_of}
use chromulate.Cookie.Bucket.{
  Entry, Identity, identity_of, identity_comparable, Bucket, position_of, push,
}
use chromulate.Cookie.Bucket.Index.{append-IsIndex}
use chromulate.Cookie.Bucket.Reads.{at-append}
use chromulate.Cookie.Bucket.Bulk.{entry_key, IsIndexed}
use chromulate.Cookie.Jar.{delete_cookie, bucket_of, with_site}
use chromulate.Cookie.Jar.Replacement.{stored, Updated, remove_at-Updated, unchanged-Updated}
use chromulate.Cookie.Jar.Counts.{IsValid, bucket_of-IsIndexed, with_site-IsValid}
use chromulate.Cookie.Jar.Storing.{Jar}
use chromulate.Cookie.Jar.Snapshot.{
  CookieRecord, Import, finished, panicked, expires_of, entry_of, is_admissible, raised, put_record,
  import_record, import_records,
}

stored-none :
    (id : Identity) (b : Bucket) → IsIndexed b → stored id b ≡ none → lookup id b.index ≡ none
stored-none id b v h = elim (Option-cases (lookup id b.index)) [
  | inl n ↦ n
  | inr (i, n) ↦ let (e, here, same) = v.sound id i n in absurd (ground (arith, h, n, here))
]

delete_cookie-Updated :
    (e : Entry) (b : Bucket)
    → IsIndexed b
    → (b' : Bucket) × (delete_cookie (position_of (identity_of e.cookie) b) b ≡ some b')
      × (Updated b e.cookie none b')
unfolding delete_cookie position_of
delete_cookie-Updated e b v = elim (Option-cases (lookup (identity_of e.cookie) b.index)) [
  | inl n ↦ (
    b,
    rw (n, delete_cookie, position_of) refl,
    unchanged-Updated b e.cookie none v (ground (arith, n)),
  )
  | inr (i, n) ↦
      let (f, here, same) = v.sound (identity_of e.cookie) i n in
      let (b', ends, u) = remove_at-Updated b i f e.cookie v here same in
      (b', rw (n, delete_cookie, position_of) ends, u)
]

-- On a bucket whose index fits its entries, `import` puts a record's entry under its identity,
-- whatever was there, changes no other identity, and reads no position out of range.
pub put_record-Updated :
    (e : Entry) (b : Bucket)
    → IsIndexed b
    → (b' : Bucket) × (put_record e b ≡ some b') × Updated b e.cookie (some e) b'
unfolding put_record push
put_record-Updated e b v =
    let (mid, ends, (v', reads)) = delete_cookie-Updated e b v in
    let fresh = stored-none (identity_of e.cookie) mid v' (
      ground (
        arith,
        reads (identity_of e.cookie),
        (identity_comparable.same_iff (identity_of e.cookie) (identity_of e.cookie)).1 refl,
      )) in
    (
      push e mid,
      rw (ends, put_record) refl,
      (
        append-IsIndex entry_key mid.entries mid.index e v' fresh,
        λ id. at-append entry_key mid.entries mid.index e id v' ∙ ground (arith, reads id),
      ),
    )

-- The record's `expires` lies outside what the platform's clock can represent.
abbrev pub Overflows : Platform → CookieRecord → Type 0
Overflows p r = expires_of p r ≡ none

-- It lies within it, or there is none.
abbrev pub Fits : Platform → CookieRecord → Type 0
Fits p r = (expires : Option Instant) × (expires_of p r ≡ some expires)

module _ (ps : Suffixes) (p : Platform) where
  -- No read out of range; a valid jar; and it finishes, or some record made it panic.
  abbrev pub EndsAs : (Jar → Type 0) → List CookieRecord → Option Import → Type 0
  EndsAs P records r =
      ((jar : Jar) × (r ≡ some (finished jar)) × IsValid jar.0 × P jar × All (Fits p) records)
      ⊎ ((jar : Jar) × (r ≡ some (panicked jar)) × IsValid jar.0 × Any (Overflows p) records)

  import_record-EndsAs :
      (now : Instant) (r : CookieRecord) (jar : Jar)
      → IsValid jar.0
      → EndsAs (λ _. Unit) (r ∷ []) (import_record ps p now r jar)
  unfolding import_record
  import_record-EndsAs now r (st, n) v = elim (Option-cases (expires_of p r)) [
    | inl o ↦ inr ((st, n), rw (o, import_record) refl, v, inl o)
    | inr (expires, o) ↦ elim (Bool-cases (is_admissible now expires r)) [
      | inr e ↦ inl ((st, n), rw (o, e, import_record) refl, v, tt, ((expires, o), tt))
      | inl e ↦
          let site : Text = site_of ps r.domain in
          let (b, ends, updated) =
            put_record-Updated (entry_of expires r) (bucket_of site st)
              (bucket_of-IsIndexed site st v) in
          inl (
            (
              with_site site b st,
              record {
                creation = raised n.creation r.creation_seq;
                access = raised n.access r.last_access_seq;
              },
            ),
            rw (o, e, ends, import_record) refl,
            with_site-IsValid site b st updated.0 v,
            tt,
            ((expires, o), tt),
          )
    ]
  ]

  pub import_records-EndsAs :
      (now : Instant) (records : List CookieRecord) (jar : Jar)
      → IsValid jar.0
      → EndsAs (λ _. Unit) records (import_records ps p now records jar)
  unfolding import_records
  import_records-EndsAs now [] jar v = inl (jar, refl, v, tt, tt)
  import_records-EndsAs now (r ∷ records) jar v = elim (import_record-EndsAs now r jar v) [
    | inr (jar', ends, v', inl o) ↦ inr (jar', rw (ends, import_records) refl, v', inl o)
    | inr (jar', ends, v', inr o) ↦ absurd o
    | inl (jar', ends, v', _, fits) ↦ elim (import_records-EndsAs now records jar' v') [
      | inl (last, ends', v'', _, rest) ↦
          inl (last, rw (ends, import_records) ends', v'', tt, (fits.0, rest))
      | inr (last, ends', v'', o) ↦ inr (last, rw (ends, import_records) ends', v'', inr o)
    ]
  ]
