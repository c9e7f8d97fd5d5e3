-- ===== src/Cookie/Jar/Eviction.antt =====
-- `enforce_total` and `tidy_every_site` of `Store`, crates/chromulate-cookie/src/jar.rs. The
-- `BinaryHeap` is a list in order, greatest first. A total is never below the length of a bucket
-- that it counts, so no subtraction here goes below zero.
use chromulate.Prelude.{
  ℕ, ◌+◌, ◌-◌, Bool, true, false, not, ◌&&◌, ◌||◌, none, some, List, [], ◌∷◌, ◌++◌, ltb, leb,
  nat_beq, if◌then◌else◌, length, sum_by,
}
use chromulate.Prelude.Time.{Instant}
use chromulate.Prelude.Text.{Text, text_comparable, text_beq}
use chromulate.Prelude.Assoc.{lookup, insert}
use chromulate.Cookie.Parsing.{is_expired}
use chromulate.Cookie.Bucket.{Entry, Bucket, remove_expired, remove_all, trim_to}
use chromulate.Cookie.Jar.{Store, bucket_of, with_site}

-- Rank, site and position, compared in this order.
pub record Candidate : Type 0 where
  pub live : Bool
  pub accessed : ℕ
  pub site : Text
  pub position : ℕ

unfoldable pub rank_for_eviction : Instant → Entry → Bool × ℕ
rank_for_eviction now e = (not (is_expired e.cookie now), e.last_access_seq)

unfoldable text_lt : Text → Text → Bool
text_lt s [] = false
text_lt [] (y ∷ t) = true
text_lt (x ∷ s) (y ∷ t) = ltb x y || (nat_beq x y && text_lt s t)

abbrev bool_lt : Bool → Bool → Bool
bool_lt a b = not a && b

abbrev bool_beq : Bool → Bool → Bool
bool_beq a b = if a then b else not b

unfoldable pub candidate_lt : Candidate → Candidate → Bool
unfolding text_lt
candidate_lt a b =
    bool_lt a.live b.live
    || (bool_beq a.live b.live
        && (ltb a.accessed b.accessed
            || (nat_beq a.accessed b.accessed
                && (text_lt a.site b.site
                    || (text_beq a.site b.site && ltb a.position b.position)))))

unfoldable pub heap_push : Candidate → List Candidate → List Candidate
unfolding candidate_lt
heap_push c [] = c ∷ []
heap_push c (x ∷ xs) = if candidate_lt c x then x ∷ heap_push c xs else c ∷ x ∷ xs

-- One step of the scan.
unfoldable pub consider : ℕ → Candidate → List Candidate → List Candidate
unfolding heap_push
consider doomed_count c worst =
    if ltb (length worst) doomed_count then heap_push c worst else (elim worst [
      | [] ↦ []
      | held ∷ rest ↦ if candidate_lt c held then heap_push c rest else held ∷ rest
    ])

unfoldable pub scan_bucket : ℕ → Instant → Text → ℕ → List Entry → List Candidate → List Candidate
unfolding rank_for_eviction consider
scan_bucket doomed_count now site position [] worst = worst
scan_bucket doomed_count now site position (e ∷ es) worst =
    let (live, accessed) = rank_for_eviction now e in
    scan_bucket doomed_count now site (position + 1) es (
      consider doomed_count
        (record { live = live; accessed = accessed; site = site; position = position }) worst)

unfoldable pub scan_sites : ℕ → Instant → List (Text × Bucket) → List Candidate → List Candidate
unfolding scan_bucket
scan_sites doomed_count now [] worst = worst
scan_sites doomed_count now ((site, b) ∷ sites) worst =
    scan_sites doomed_count now sites (scan_bucket doomed_count now site 0 b.entries worst)

unfoldable pub victims_of : List Candidate → List (Text × List ℕ) → List (Text × List ℕ)
victims_of [] victims = victims
victims_of (c ∷ worst) victims =
    let held : List ℕ = elim (lookup c.site victims) [ none ↦ [] | some positions ↦ positions ] in
    victims_of worst (insert c.site (held ++ c.position ∷ []) victims)

unfoldable pub evict : List (Text × List ℕ) → Store → Store
evict [] store = store
evict ((site, positions) ∷ victims) store =
    evict victims (with_site site (remove_all positions (bucket_of site store)) store)

unfoldable pub victims_in : Instant → ℕ → Store → List (Text × List ℕ)
unfolding scan_sites victims_of
victims_in now target store = victims_of (scan_sites (store.total - target) now store.sites []) []

unfoldable pub enforce_total : Instant → (cap target : ℕ) → Store → Store
unfolding victims_in evict
enforce_total now cap target store =
    if leb store.total cap then store else evict (victims_in now target store) store

abbrev pub site_length : Text × Bucket → ℕ
site_length (site, b) = length b.entries

unfoldable pub recount : Store → Store
recount store = record store {
  total = sum_by (λ (x : Text × Bucket). length x.1.entries) store.sites;
}

unfoldable pub tidied : Instant → ℕ → List (Text × Bucket) → List (Text × Bucket)
tidied now per_domain [] = []
tidied now per_domain ((site, b) ∷ sites) =
    let b' : Bucket = trim_to per_domain (remove_expired now b) in
    let rest : List (Text × Bucket) = tidied now per_domain sites in
    if nat_beq (length b'.entries) 0 then rest else (site, b') ∷ rest

unfoldable pub tidy_every_site : Instant → ℕ → Store → Store
unfolding recount tidied
tidy_every_site now per_domain store =
    recount (record store { sites = tidied now per_domain store.sites })
