-- ===== src/Http/Pool/Key.antt =====
-- crates/chromulate-http/src/pool.rs: `Protocol`, `ConnectionIdentity` and `PoolKey`.
use chromulate.Prelude.{
  ℕ, ◌≡◌, ◌↔◌, Bool, true, false, Option, ◌&&◌, arith, Comparable, nat_beq, ◌∷◌, ◌++◌,
}
use chromulate.Prelude.Text.{Text, text_beq, text_beq_iff, option_text_beq, option_text_beq_iff}

pub data Protocol : Type 0 where
  http11 protocol_http2 : Protocol

unfoldable pub protocol_beq : Protocol → Protocol → Bool
protocol_beq http11 http11 = true
protocol_beq http11 protocol_http2 = false
protocol_beq protocol_http2 http11 = false
protocol_beq protocol_http2 protocol_http2 = true

pub protocol_beq_iff : (p q : Protocol) → (protocol_beq p q ≡ true) ↔ (p ≡ q)
unfolding protocol_beq
protocol_beq_iff http11 http11 = ground arith
protocol_beq_iff http11 protocol_http2 = ground arith
protocol_beq_iff protocol_http2 http11 = ground arith
protocol_beq_iff protocol_http2 protocol_http2 = ground arith

pub record ConnectionIdentity : Type 0 where
  pub text : Text
  pub content_hash : ℕ

-- The text of `ConnectionIdentity::of`: the two fingerprints and the user agent, joined by `|`.
unfoldable pub identity_text : (ja4 akamai user_agent : Text) → Text
identity_text ja4 akamai user_agent = ja4 ++ b'|' ∷ (akamai ++ b'|' ∷ user_agent)

-- `ConnectionIdentity::of`: `hash` is that of the standard library.
unfoldable pub identity_of : (hash : Text → ℕ) → (ja4 akamai user_agent : Text) → ConnectionIdentity
unfolding identity_text
identity_of hash ja4 akamai user_agent = record {
  text = identity_text ja4 akamai user_agent;
  content_hash = hash (identity_text ja4 akamai user_agent);
}

-- `PartialEq for ConnectionIdentity`: the hash is compared first, then the text.
unfoldable pub identity_beq : ConnectionIdentity → ConnectionIdentity → Bool
identity_beq a b = nat_beq a.content_hash b.content_hash && text_beq a.text b.text

pub record PoolKey : Type 0 where
  pub scheme : Text
  pub host : Text
  pub port : ℕ
  pub proxy : Option Text
  pub identity : ConnectionIdentity
  pub protocol : Protocol

-- The derived `PartialEq` of `PoolKey`.
unfoldable pub pool_key_beq : PoolKey → PoolKey → Bool
unfolding identity_beq
pool_key_beq a b =
    text_beq a.scheme b.scheme
    && (text_beq a.host b.host
        && (nat_beq a.port b.port
            && (option_text_beq a.proxy b.proxy
                && (identity_beq a.identity b.identity && protocol_beq a.protocol b.protocol))))

identity_beq_iff : (a b : ConnectionIdentity) → (identity_beq a b ≡ true) ↔ (a ≡ b)
unfolding identity_beq
identity_beq_iff a b = ground (arith, text_beq_iff a.text b.text)

pub pool_key_beq_iff : (a b : PoolKey) → (pool_key_beq a b ≡ true) ↔ (a ≡ b)
unfolding pool_key_beq
pool_key_beq_iff a b = ground (
  arith,
  text_beq_iff a.scheme b.scheme,
  text_beq_iff a.host b.host,
  option_text_beq_iff a.proxy b.proxy,
  identity_beq_iff a.identity b.identity,
  protocol_beq_iff a.protocol b.protocol,
)

instance unfoldable pub pool_key_comparable : Comparable PoolKey
pool_key_comparable = record { same = pool_key_beq; same_iff = pool_key_beq_iff }

-- Two identities made by `ConnectionIdentity::of` are equal exactly when their texts are, whatever
-- the hash: a collision of the cached hash never makes two profiles share a connection.
pub identity_of-beq :
    (hash : Text → ℕ) (j a u j' a' u' : Text)
    → (identity_beq (identity_of hash j a u) (identity_of hash j' a' u') ≡ true)
      ↔ (identity_text j a u ≡ identity_text j' a' u')
unfolding identity_beq identity_of
identity_of-beq hash j a u j' a' u' =
    ground (arith, text_beq_iff (identity_text j a u) (identity_text j' a' u'))
