-- ===== src/Http/Hsts/Upgrade.antt =====
-- `HstsStore::upgrade` of crates/chromulate-http/src/hsts.rs. URLs belong to the `url` crate:
-- `Schemes` is what the code asks of them, with laws of its documentation. A refused change is
-- `none`, and leaves the URL as it was.
use chromulate.Prelude.{
  ℕ, Bool, true, false, not, Option, none, some, ◌≡◌, ◌≢◌, ◌⊎◌, refl, ◌∙◌, arith, nat_beq,
  if◌then◌else◌, ◌==◌, inl, inr, Option-cases, Bool-cases,
}
use chromulate.Prelude.Time.{Instant}
use chromulate.Prelude.Text.{Text, ascii, text_beq_iff, text_comparable}
use chromulate.Http.Hsts.{HstsStore, applies_to}
use chromulate.Http.Hsts.Coverage.{IsCovered, applies_to-IsCovered}

pub record Schemes : Type 1 where
  pub Url : Type 0
  pub scheme : Url → Text
  pub host_str : Url → Option Text
  pub port : Url → Option ℕ
  pub set_scheme : Text → Url → Option Url
  pub without_port : Url → Url
  pub scheme-set_scheme : (s : Text) (url v : Url) → set_scheme s url ≡ some v → scheme v ≡ s
  pub host_str-set_scheme :
      (s : Text) (url v : Url) → set_scheme s url ≡ some v → host_str v ≡ host_str url
  pub scheme-without_port : (url : Url) → scheme (without_port url) ≡ scheme url
  pub host_str-without_port : (url : Url) → host_str (without_port url) ≡ host_str url
  pub port-without_port : (url : Url) → port (without_port url) ≡ none

abbrev pub is_80 : Option ℕ → Bool
is_80 none = false
is_80 (some port) = nat_beq port 80

module _ (is_ip_addr : Text → Bool) (u : Schemes) where
  -- Whether the URL was changed, and the URL.
  unfoldable pub upgrade : HstsStore → Instant → u.Url → Bool × u.Url
  upgrade store now url =
      if not (u.scheme url == ascii "http") then (false, url) else (elim (u.host_str url) [
        | none ↦ (false, url)
        | some host ↦
            if not (applies_to is_ip_addr host now store)
            then (false, url)
            else (elim (u.set_scheme (ascii "https") url) [
              | none ↦ (false, url)
              | some v ↦ (true, if is_80 (u.port url) then u.without_port v else v)
            ])
      ])

  -- What an upgraded URL and the one before it have to do with each other.
  pub record IsUpgrade (store : HstsStore) (now : Instant) (url v : u.Url) : Type 0 where
    pub from_http : u.scheme url ≡ ascii "http"
    pub to_https : u.scheme v ≡ ascii "https"
    pub same_host : u.host_str v ≡ u.host_str url
    pub covered : (host : Text) × (u.host_str url ≡ some host) × IsCovered is_ip_addr host now store
    pub no_port_80 : u.port url ≡ some 80 → u.port v ≡ none

  abbrev changed : u.Url → u.Url → u.Url
  changed url v = if is_80 (u.port url) then u.without_port v else v

  changed-IsUpgrade :
      (store : HstsStore) (now : Instant) (url v : u.Url) (host : Text)
      → u.scheme url ≡ ascii "http"
      → u.host_str url ≡ some host
      → IsCovered is_ip_addr host now store
      → u.set_scheme (ascii "https") url ≡ some v
      → IsUpgrade store now url (changed url v)
  changed-IsUpgrade store now url v host http is covered set =
      elim (Bool-cases (is_80 (u.port url))) [
        | inl e ↦ rw e (record {
          from_http = http;
          to_https = u.scheme-without_port v ∙ u.scheme-set_scheme (ascii "https") url v set;
          same_host = u.host_str-without_port v ∙ u.host_str-set_scheme (ascii "https") url v set;
          covered = (host, is, covered);
          no_port_80 = λ _. u.port-without_port v;
        })
        | inr e ↦ rw e (record {
          from_http = http;
          to_https = u.scheme-set_scheme (ascii "https") url v set;
          same_host = u.host_str-set_scheme (ascii "https") url v set;
          covered = (host, is, covered);
          no_port_80 = λ p. absurd (ground (arith, e, p));
        })
      ]

  -- Why a URL stays: another scheme, no host, a host that the store does not cover, or a refusal.
  pub data IsKept (store : HstsStore) (now : Instant) (url : u.Url) : Type 0 where
    other_scheme : u.scheme url ≢ ascii "http" → IsKept store now url
    no_host : u.host_str url ≡ none → IsKept store now url
    uncovered :
        (host : Text)
        → u.host_str url ≡ some host
        → ¬ (IsCovered is_ip_addr host now store)
        → IsKept store now url
    refused : u.set_scheme (ascii "https") url ≡ none → IsKept store now url

  -- `upgrade` changes an `http` URL whose host the store covers, unless the URL refuses the scheme,
  -- into an `https` URL of the same host, without a port if it named port 80. It leaves every other
  -- URL as it is.
  pub upgrade-IsUpgrade :
      (store : HstsStore) (now : Instant) (url : u.Url)
      → (((upgrade store now url).0 ≡ false)
          × ((upgrade store now url).1 ≡ url)
          × IsKept store now url)
        ⊎ (((upgrade store now url).0 ≡ true) × IsUpgrade store now url (upgrade store now url).1)
  unfolding upgrade
  upgrade-IsUpgrade store now url = elim (Bool-cases (u.scheme url == ascii "http")) [
    | inr e ↦
        rw (e, upgrade)
          (inl (
            refl,
            refl,
            IsKept.other_scheme
                (λ h. ground (arith, e, (text_beq_iff (u.scheme url) (ascii "http")).1 h)),
          ))
    | inl e ↦ elim (Option-cases (u.host_str url)) [
      | inl n ↦ rw (e, n, upgrade) (inl (refl, refl, IsKept.no_host n))
      | inr (host, n) ↦ elim (Bool-cases (applies_to is_ip_addr host now store)) [
        | inr a ↦
            rw (e, n, a, upgrade)
              (inl (
                refl,
                refl,
                IsKept.uncovered host n
                    (λ c. ground (arith, a, (applies_to-IsCovered is_ip_addr host now store).1 c)),
              ))
        | inl a ↦ elim (Option-cases (u.set_scheme (ascii "https") url)) [
          | inl m ↦ rw (e, n, a, m, upgrade) (inl (refl, refl, IsKept.refused m))
          | inr (v, m) ↦
              rw (e, n, a, m, upgrade)
                (inr (
                  refl,
                  changed-IsUpgrade store now url v host
                      ((text_beq_iff (u.scheme url) (ascii "http")).0 e) n
                      ((applies_to-IsCovered is_ip_addr host now store).0 a) m,
                ))
        ]
      ]
    ]
  ]
