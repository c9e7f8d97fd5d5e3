-- ===== src/Core/Uri.antt =====
-- crates/chromulate-core/src/uri.rs: the origin of a URL. `Urls` is what the program asks of the
-- `url` crate, which is not part of this repository; a failing `join` says why.
use chromulate.Prelude.{
  ℕ, Bool, true, ◌&&◌, ◌||◌, Option, none, some, ◌++◌, ◌⊎◌, inl, inr, ◌↔◌, ◌≡◌, arith, nat_beq,
  ◌==◌,
}
use chromulate.Prelude.Text.{
  Text, ascii, text_beq, text_beq_iff, text_comparable, to_ascii_lowercase,
}
use chromulate.Core.Error.{Error, url}

pub record Urls : Type 1 where
  pub Url : Type 0
  pub as_str : Url → Text
  pub scheme : Url → Text
  pub host_str : Url → Option Text
  pub port_or_known_default : Url → Option ℕ
  pub join : Url → Text → Text ⊎ Url

pub record Origin : Type 0 where
  pub scheme : Text
  pub host : Text
  pub port : ℕ

-- `PartialEq` of `Origin`.
unfoldable pub origin_beq : Origin → Origin → Bool
origin_beq a b = text_beq a.scheme b.scheme && (text_beq a.host b.host && nat_beq a.port b.port)

pub origin_beq_iff : (a b : Origin) → (origin_beq a b ≡ true) ↔ (a ≡ b)
unfolding origin_beq
origin_beq_iff a b = ground (arith, text_beq_iff a.scheme b.scheme, text_beq_iff a.host b.host)

unfoldable pub is_secure : Origin → Bool
is_secure o = o.scheme == ascii "https" || o.scheme == ascii "wss"

module _ (u : Urls) where
  -- `Origin::of`.
  unfoldable pub origin_of : u.Url → Error ⊎ Origin
  origin_of v = elim (u.host_str v) [
    | none ↦ inl (url (ascii "`" ++ u.as_str v ++ ascii "` has no host"))
    | some host ↦ elim (u.port_or_known_default v) [
      | none ↦ inl (url (ascii "scheme `" ++ u.scheme v ++ ascii "` has no default port"))
      | some port ↦ inr (record {
        scheme = to_ascii_lowercase (u.scheme v);
        host = to_ascii_lowercase host;
        port = port;
      })
    ]
  ]
