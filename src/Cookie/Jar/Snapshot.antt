-- ===== src/Cookie/Jar/Snapshot.antt =====
-- `Jar::export` and `Jar::import` of crates/chromulate-cookie/src/jar.rs.
use chromulate.Prelude.{
  ℕ, ◌+◌, ◌-◌, ◌/◌, min, max, Bool, false, not, Option, none, some, List, [], ◌∷◌, ◌++◌, leb,
  if◌then◌else◌,
}
use chromulate.Prelude.Time.{Instant}
use chromulate.Prelude.Int.{ℤ, pos, negated}
use chromulate.Prelude.Text.{Text, text_comparable, u64_max}
use chromulate.Cache.Date.{Platform}
use chromulate.Cookie.Domain.{Suffixes, site_of}
use chromulate.Cookie.Expiry.{epoch_seconds_to_system_time}
use chromulate.Cookie.Parsing.{SameSite, is_expired, keeps_name_prefix_promise}
use chromulate.Cookie.Bucket.{Entry, identity_of, Bucket, position_of, push}
use chromulate.Cookie.Jar.{JarLimits, purge_target, Store, delete_cookie, bucket_of, with_site}
use chromulate.Cookie.Jar.Eviction.{tidy_every_site, enforce_total}
use chromulate.Cookie.Jar.Serving.{is_representable}
use chromulate.Cookie.Jar.Storing.{Jar}

pub record CookieRecord : Type 0 where
  pub name : Text
  pub value : Text
  pub domain : Text
  pub host_only : Bool
  pub path : Text
  pub secure : Bool
  pub http_only : Bool
  pub same_site : SameSite
  pub partitioned : Bool
  pub expires : Option ℤ
  pub creation_seq : ℕ
  pub last_access_seq : ℕ

-- Whole seconds; the fraction is dropped.
unfoldable pub system_time_to_epoch_seconds : Platform → Instant → ℤ
system_time_to_epoch_seconds p time =
    if leb p.epoch time
    then pos ((time - p.epoch) / 1000000000)
    else negated ((p.epoch - time) / 1000000000)

unfoldable pub record_of : Platform → Entry → CookieRecord
unfolding system_time_to_epoch_seconds
record_of p e = record {
  name = e.cookie.name;
  value = e.cookie.value;
  domain = e.cookie.domain;
  host_only = e.cookie.host_only;
  path = e.cookie.path;
  secure = e.cookie.secure;
  http_only = e.cookie.http_only;
  same_site = e.cookie.same_site;
  partitioned = e.cookie.partitioned;
  expires = elim e.cookie.expires [
    | none ↦ none
    | some t ↦ some (system_time_to_epoch_seconds p t)
  ];
  creation_seq = e.creation_seq;
  last_access_seq = e.last_access_seq;
}

unfoldable export_entries : Platform → Instant → List Entry → List CookieRecord
unfolding record_of
export_entries p now [] = []
export_entries p now (e ∷ es) =
    let rest : List CookieRecord = export_entries p now es in
    if is_expired e.cookie now then rest else record_of p e ∷ rest

unfoldable export_sites : Platform → Instant → List (Text × Bucket) → List CookieRecord
unfolding export_entries
export_sites p now [] = []
export_sites p now ((site, b) ∷ sites) = export_entries p now b.entries ++ export_sites p now sites

-- `Jar::export`.
unfoldable pub export : Platform → Instant → Store → List CookieRecord
unfolding export_sites
export p now store = export_sites p now store.sites

-- A record's `expires` as a `SystemTime`, if it has one; `none` is the conversion's panic.
unfoldable pub expires_of : Platform → CookieRecord → Option (Option Instant)
expires_of p r = elim r.expires [
  | none ↦ some none
  | some t ↦ elim (epoch_seconds_to_system_time p t) [ none ↦ none | some i ↦ some (some i) ]
]

-- The entry of a record, with its converted `expires`.
unfoldable pub entry_of : Option Instant → CookieRecord → Entry
entry_of expires r = record {
  cookie = record {
    name = r.name;
    value = r.value;
    domain = r.domain;
    host_only = r.host_only;
    path = r.path;
    secure = r.secure;
    http_only = r.http_only;
    same_site = r.same_site;
    partitioned = r.partitioned;
    expires = expires;
  };
  creation_seq = r.creation_seq;
  last_access_seq = r.last_access_seq;
}

-- The three reasons for which `import` drops a record.
unfoldable pub is_admissible : Instant → Option Instant → CookieRecord → Bool
unfolding entry_of
is_admissible now expires r =
    if is_expired (entry_of expires r).cookie now
    then false
    else if not (is_representable r.name r.value)
    then false
    else keeps_name_prefix_promise r.name r.secure r.host_only r.path

-- `fetch_max(number.saturating_add(1))`.
abbrev pub raised : ℕ → ℕ → ℕ
raised counter number = max counter (min (number + 1) u64_max)

-- The bucket's change: what has this identity makes room for the record.
unfoldable pub put_record : Entry → Bucket → Option Bucket
put_record e b = elim (delete_cookie (position_of (identity_of e.cookie) b) b) [
  | none ↦ none
  | some b' ↦ some (push e b')
]

-- How `import` ends. A panic unwinds and leaves the jar as it was then, behind a lock that later
-- calls recover.
pub data Import : Type 0 where
  finished : Jar → Import
  panicked : Jar → Import

module _ (ps : Suffixes) (p : Platform) where
  -- One round of the loop; `none` is a read out of range.
  unfoldable pub import_record : Instant → CookieRecord → Jar → Option Import
  unfolding is_admissible entry_of put_record expires_of
  import_record now r (store, n) = elim (expires_of p r) [
    | none ↦ some (panicked (store, n))
    | some expires ↦
        if not (is_admissible now expires r)
        then some (finished (store, n))
        else let site : Text = site_of ps r.domain in
          elim (put_record (entry_of expires r) (bucket_of site store)) [
            | none ↦ none
            | some b ↦ some (
                finished (
                  with_site site b store,
                  record {
                    creation = raised n.creation r.creation_seq;
                    access = raised n.access r.last_access_seq;
                  },
                ))
          ]
  ]

  unfoldable pub import_records : Instant → List CookieRecord → Jar → Option Import
  unfolding import_record
  import_records now [] jar = some (finished jar)
  import_records now (r ∷ records) jar = elim (import_record now r jar) [
    | none ↦ none
    | some ended ↦ elim ended [
      | panicked jar' ↦ some (panicked jar')
      | finished jar' ↦ import_records now records jar'
    ]
  ]

  -- `Jar::import`.
  unfoldable pub import : JarLimits → Instant → List CookieRecord → Jar → Option Import
  unfolding import_records
  import limits now records jar = elim (import_records now records jar) [
    | none ↦ none
    | some ended ↦ elim ended [
      | panicked jar' ↦ some (panicked jar')
      | finished (store, n) ↦ some (
          finished (
            enforce_total now limits.total (purge_target limits)
                (tidy_every_site now limits.per_domain store),
            n,
          ))
    ]
  ]
