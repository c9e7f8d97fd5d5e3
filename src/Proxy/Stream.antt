-- ===== src/Proxy/Stream.antt =====
-- crates/chromulate-proxy/src/socks5.rs and url.rs: the stream to a proxy, and what is read of the
-- proxy's URL. A stream is the bytes that the proxy sends until it closes, and those sent to it so
-- far. `Host` is what the code asks of the operating system and of the standard library, none of
-- which is part of this repository.
pub mod Steps
use chromulate.Prelude.{
  ℕ, zero, suc, ◌+◌, ◌/◌, ◌%◌, Bool, true, false, not, ◌||◌, Option, none, some, List, [], ◌∷◌,
  ◌++◌, ◌⊎◌, inl, inr, ltb, leb, nat_beq, if◌then◌else◌, length, take, get_elem?, is_some,
  unwrap_or,
}
use chromulate.Prelude.Text.{Text, ascii}
use chromulate.Core.Error.{Error, proxy, builder, resolve_error}

-- `IpAddr`: the octets of an address.
abbrev pub Four : Type 0
Four = ℕ × ℕ × ℕ × ℕ

pub data IpAddr : Type 0 where
  v4 : Four → IpAddr
  v6 : Four → Four → Four → Four → IpAddr

pub data ProxyScheme : Type 0 where
  http https socks5 socks5h : ProxyScheme

abbrev pub is_socks5h : ProxyScheme → Bool
is_socks5h socks5h = true
is_socks5h _ = false

-- `shown` is the display of the URL, which hides the credentials.
pub record ProxyUrl : Type 0 where
  pub scheme : ProxyScheme
  pub username : Option Text
  pub password : Option Text
  pub shown : Text

unfoldable pub has_credentials : ProxyUrl → Bool
has_credentials p = is_some p.username || is_some p.password

pub record HostPort : Type 0 where
  pub host : Text
  pub port : ℕ

-- A failed lookup is `none`; a write may fail, by what was sent before it.
pub record Host : Type 0 where
  pub parse_ip : Text → Option IpAddr
  pub lookup_host : Text → ℕ → Option (List IpAddr)
  pub write_error : Text → Option Text
  pub read_error : Text
  pub decimal : ℕ → Text
  pub hex : ℕ → Text

pub record Stream : Type 0 where
  pub incoming : Text
  pub sent : Text

abbrev pub Outcome : Type 0 → Type 0
Outcome A = Error ⊎ A

-- An asynchronous function on a stream: what it returns, and the stream after it.
abbrev pub Step : Type 0 → Type 0
Step A = Stream → Outcome A × Stream

-- `?` on a step.
abbrev pub and_then : {A B : Type 0} → Step A → (A → Step B) → Step B
and_then m k s = let (r, s') = m s in elim r [ inl e ↦ (inl e, s') | inr a ↦ k a s' ]

abbrev pub return : {A : Type 0} → A → Step A
return a s = (inr a, s)

-- A test of what is already there.
abbrev pub checked : {A : Type 0} → Outcome A → Step A
checked r s = (r, s)

abbrev pub drop : ℕ → Text → Text
drop zero s = s
drop (suc n) [] = []
drop (suc n) (c ∷ s) = drop n s

abbrev pub byte_at : ℕ → Text → ℕ
byte_at i buf = unwrap_or (get_elem? buf i) 0

module _ (h : Host) (p : ProxyUrl) where
  unfoldable pub proxy_error : {A : Type 0} → Text → Outcome A
  proxy_error message = inl (proxy p.shown message)

  unfoldable pub write_all : Text → Step Unit
  unfolding proxy_error
  write_all buf s = elim (h.write_error s.sent) [
    | some e ↦ (proxy_error (ascii "write failed: " ++ e), s)
    | none ↦ (inr tt, record s { sent = s.sent ++ buf })
  ]

  unfoldable pub read_exact : ℕ → Step Text
  unfolding proxy_error
  read_exact n s =
      if leb n (length s.incoming)
      then (inr (take n s.incoming), record s { incoming = drop n s.incoming })
      else (proxy_error (ascii "read failed: " ++ h.read_error), record s { incoming = [] })
