-- ===== src/Cookie/Jar/Replacement.antt =====
-- `apply_set_cookie` of crates/chromulate-cookie/src/jar.rs as an update of a map from identities to
-- entries.
use chromulate.Prelude.{
  ℕ, ◌-◌, Bool, false, not, ◌&&◌, Option, none, some, List, [], ◌∷◌, ◌++◌, ◌≡◌, inl, inr, refl, sym,
  ap, ◌∙◌, subst, arith, if◌then◌else◌, length, get_elem?, set, drop_last, ◌==◌, Option-cases,
  Bool-cases,
}
use chromulate.Prelude.Time.{Instant}
use chromulate.Prelude.Assoc.{lookup, remove, insert}
use chromulate.Cookie.Parsing.{Cookie, is_expired}
use chromulate.Cookie.Bucket.{
  Entry, Identity, identity_of, identity_comparable, Bucket, position_of, push, replace,
  swap_remove, remove_at,
}
use chromulate.Cookie.Bucket.Positions.{get_elem?-lt, lt-get_elem?}
use chromulate.Cookie.Bucket.Index.{append-IsIndex, set-IsIndex}
use chromulate.Cookie.Bucket.Reads.{at, at-append, at-set, repaired, swap_remove-Removed}
use chromulate.Cookie.Bucket.Bulk.{entry_key, IsIndexed}
use chromulate.Cookie.Jar.{Counters, bumped, put_cookie, delete_cookie, apply_set_cookie}

-- The bucket as a map.
abbrev pub stored : Identity → Bucket → Option Entry
stored id b = at id b.entries b.index

-- What a `Set-Cookie` leaves under its cookie's identity, from what was there and the next number.
abbrev pub kept_under : Instant → Bool → Cookie → Counters → Option Entry → Option Entry
kept_under now request_is_secure cookie n old =
    if (elim old [ none ↦ false | some e ↦ e.cookie.secure ]) && not request_is_secure
    then old
    else if is_expired cookie now
    then none
    else some (record {
      cookie = cookie;
      creation_seq = elim old [ none ↦ n.creation | some e ↦ e.creation_seq ];
      last_access_seq = n.access;
    })

abbrev pub Updated : Bucket → Cookie → Option Entry → Bucket → Type 0
Updated b cookie now_stored b' =
    IsIndexed b'
    × ((id : Identity)
        → stored id b' ≡ (if identity_of cookie == id then now_stored else stored id b))

remove_at_last :
    (b : Bucket) (i : ℕ) (e last : Entry) (cookie : Cookie)
    → IsIndexed b
    → get_elem? b.entries i ≡ some e
    → get_elem? b.entries (length b.entries - 1) ≡ some last
    → identity_of e.cookie ≡ identity_of cookie
    → (b' : Bucket) × (remove_at i b ≡ some b') × Updated b cookie none b'
unfolding remove_at swap_remove
remove_at_last b i e last cookie v h end same =
    let ys : List Entry = drop_last (set b.entries i last) in
    let (v', reads) = swap_remove-Removed entry_key b.entries b.index i e last v h end in
    (
      record {
        entries = ys;
        index = repaired entry_key (get_elem? ys i) i (remove (identity_of e.cookie) b.index);
      },
      rw (h, end, remove_at, swap_remove) refl,
      (v', λ id. reads id ∙ ap (λ k. if k == id then none else stored id b) same),
    )

pub remove_at-Updated :
    (b : Bucket) (i : ℕ) (e : Entry) (cookie : Cookie)
    → IsIndexed b
    → get_elem? b.entries i ≡ some e
    → identity_of e.cookie ≡ identity_of cookie
    → (b' : Bucket) × (remove_at i b ≡ some b') × Updated b cookie none b'
remove_at-Updated b i e cookie v h same =
    let (last, end) =
      lt-get_elem? b.entries (length b.entries - 1) (omega (arith, get_elem?-lt b.entries i e h)) in
    remove_at_last b i e last cookie v h end same

-- A change of the bucket that ends, and leaves `now_stored` under the cookie's identity.
abbrev pub Result : Option (Bucket × Counters) → Bucket → Cookie → Option Entry → Type 0
Result r b cookie now_stored =
    (b' : Bucket) × (n' : Counters) × (r ≡ some (b', n')) × Updated b cookie now_stored b'

put_cookie-some-Updated :
    (b : Bucket) (i : ℕ) (e : Entry) (cookie : Cookie) (n : Counters)
    → IsIndexed b
    → get_elem? b.entries i ≡ some e
    → identity_of e.cookie ≡ identity_of cookie
    → Result (put_cookie cookie (some i) b n) b cookie (
        some
          (record { cookie = cookie; creation_seq = e.creation_seq; last_access_seq = n.access }))
unfolding put_cookie replace
put_cookie-some-Updated b i e cookie n v h same =
    let new : Entry = record {
      cookie = cookie;
      creation_seq = e.creation_seq;
      last_access_seq = n.access;
    } in
    (
      record b { entries = set b.entries i new },
      record n { access = bumped n.access },
      ground (arith, h, get_elem?-lt b.entries i e h),
      (
        set-IsIndex entry_key b.entries b.index i e new v h (sym same),
        λ id.
            at-set entry_key b.entries b.index i e new id v h
            ∙ ap (λ k. if k == id then some new else stored id b) same,
      ),
    )

put_cookie-none-Updated :
    (b : Bucket) (cookie : Cookie) (n : Counters)
    → IsIndexed b
    → lookup (identity_of cookie) b.index ≡ none
    → Result
        (put_cookie cookie none b n)
        b
        cookie
        (some (record { cookie = cookie; creation_seq = n.creation; last_access_seq = n.access }))
unfolding put_cookie push
put_cookie-none-Updated b cookie n v fresh =
    let new : Entry = record {
      cookie = cookie;
      creation_seq = n.creation;
      last_access_seq = n.access;
    } in
    (
      record {
        index = insert (identity_of cookie) (length b.entries) b.index;
        entries = b.entries ++ new ∷ [];
      },
      record { creation = bumped n.creation; access = bumped n.access },
      refl,
      (
        append-IsIndex entry_key b.entries b.index new v fresh,
        λ id. at-append entry_key b.entries b.index new id v,
      ),
    )

pub unchanged-Updated :
    (b : Bucket) (cookie : Cookie) (old : Option Entry)
    → IsIndexed b
    → stored (identity_of cookie) b ≡ old
    → Updated b cookie old b
unchanged-Updated b cookie old v h = (
  v,
  λ id. elim (Bool-cases (identity_of cookie == id)) [
    | inl e ↦ ground (
      arith,
      e,
      h,
      ap (λ k. stored k b) ((identity_comparable.same_iff (identity_of cookie) id).0 e),
    )
    | inr e ↦ ground (arith, e)
  ],
)

apply_present :
    (now : Instant) (is_secure : Bool) (cookie : Cookie) (b : Bucket) (n : Counters) (i : ℕ)
    (e : Entry)
    → IsIndexed b
    → lookup (identity_of cookie) b.index ≡ some i
    → get_elem? b.entries i ≡ some e
    → identity_of e.cookie ≡ identity_of cookie
    → Result
        (apply_set_cookie now is_secure cookie b n)
        b
        cookie
        (kept_under now is_secure cookie n (some e))
unfolding apply_set_cookie position_of delete_cookie
apply_present now is_secure cookie b n i e v h here same =
    elim (Bool-cases (e.cookie.secure && not is_secure)) [
      | inl g ↦ (
        b,
        n,
        ground (arith, h, here, g),
        rw g (unchanged-Updated b cookie (some e) v (ground (arith, h, here))),
      )
      | inr g ↦ elim (Bool-cases (is_expired cookie now)) [
        | inl k ↦
            let (b', ends, u) = remove_at-Updated b i e cookie v here same in
            (b', n, ground (arith, h, here, g, k, ends), rw (g, k) u)
        | inr k ↦
            let (b', n', ends, u) = put_cookie-some-Updated b i e cookie n v here same in
            (b', n', ground (arith, h, here, g, k, ends), rw (g, k) u)
      ]
    ]

apply_absent :
    (now : Instant) (is_secure : Bool) (cookie : Cookie) (b : Bucket) (n : Counters)
    → IsIndexed b
    → lookup (identity_of cookie) b.index ≡ none
    → Result
        (apply_set_cookie now is_secure cookie b n)
        b
        cookie
        (kept_under now is_secure cookie n none)
unfolding apply_set_cookie position_of delete_cookie
apply_absent now is_secure cookie b n v h = elim (Bool-cases (is_expired cookie now)) [
  | inl k ↦
      (b, n, ground (arith, h, k), rw k (unchanged-Updated b cookie none v (ground (arith, h))))
  | inr k ↦
      let (b', n', ends, u) = put_cookie-none-Updated b cookie n v h in
      (b', n', ground (arith, h, k, ends), rw k u)
]

-- On a bucket whose index fits its entries, `apply_set_cookie` never reads a position out of range,
-- leaves such a bucket, and is an update of the map from identities to entries at the cookie's own
-- identity alone: a secure cookie there is out of an insecure request's reach; else an expired
-- cookie deletes what is there, and any other takes its place, with its creation number if there
-- was one and the next number if not.
pub apply_set_cookie-Updated :
    (now : Instant) (is_secure : Bool) (cookie : Cookie) (b : Bucket) (n : Counters)
    → IsIndexed b
    → Result
        (apply_set_cookie now is_secure cookie b n)
        b
        cookie
        (kept_under now is_secure cookie n (stored (identity_of cookie) b))
apply_set_cookie-Updated now is_secure cookie b n v =
    let Ends : Option Entry → Type 0 = λ old.
      Result (apply_set_cookie now is_secure cookie b n) b cookie
        (kept_under now is_secure cookie n old) in
    elim (Option-cases (lookup (identity_of cookie) b.index)) [
      | inl h ↦
          let is : none ≡ stored (identity_of cookie) b = ground (arith, h) in
          subst Ends is (apply_absent now is_secure cookie b n v h)
      | inr (i, h) ↦
          let (e, here, same) = v.sound (identity_of cookie) i h in
          let is : some e ≡ stored (identity_of cookie) b = ground (arith, h, here) in
          subst Ends is (apply_present now is_secure cookie b n i e v h here same)
    ]
