-- ===== src/Proxy/Socks5/Encoding.antt =====
-- The request of crates/chromulate-proxy/src/socks5.rs as a proxy reads it.
use chromulate.Prelude.{
  ℕ, ◌+◌, ◌*◌, ◌/◌, ◌%◌, ◌≤◌, true, false, not, Option, none, some, List, [], ◌∷◌, ◌++◌, ◌≡◌, inl,
  inr, refl, sym, ap, ◌∙◌, subst, arith, ltb, nat_beq, if◌then◌else◌, length, length-append, take,
  Option-cases, Bool-cases,
}
use chromulate.Prelude.Text.{Text}
use chromulate.Proxy.Stream.{IpAddr, v4, v6, ProxyUrl, HostPort, Host, is_socks5h, drop}
use chromulate.Proxy.Socks5.{
  octets, to_be_bytes, push_ip_address, push_domain_address, encode_address,
}

pub data Address : Type 0 where
  ip : IpAddr → Address
  domain : Text → Address

-- Where the tunnel is to lead: to an address that the host's name spells; by the name, when the
-- proxy resolves it; else to the first address that the client's lookup gives.
pub data Leads (h : Host) (p : ProxyUrl) (target : HostPort) : Address → Type 0 where
  literal : (a : IpAddr) → h.parse_ip target.host ≡ some a → Leads h p target (ip a)
  named :
      h.parse_ip target.host ≡ none
      → is_socks5h p.scheme ≡ true
      → Leads h p target (domain target.host)
  resolved :
      (a : IpAddr) (others : List IpAddr)
      → h.parse_ip target.host ≡ none
      → is_socks5h p.scheme ≡ false
      → h.lookup_host target.host target.port ≡ some (a ∷ others)
      → Leads h p target (ip a)

-- RFC 1928, section 4: the reader of a request.
unfoldable pub read_port : Text → Option ℕ
read_port (high ∷ low ∷ []) = some (high * 256 + low)
read_port _ = none

abbrev with_port : Address → Text → Option (Address × ℕ)
with_port a rest = elim (read_port rest) [ none ↦ none | some port ↦ some (a, port) ]

unfoldable read_v4 : Text → Option (Address × ℕ)
unfolding read_port
read_v4 (a ∷ b ∷ c ∷ d ∷ rest) = with_port (ip (v4 (a, b, c, d))) rest
read_v4 _ = none

unfoldable read_v6 : Text → Option (Address × ℕ)
unfolding read_port
read_v6 (a ∷ b ∷ c ∷ d ∷ e ∷ f ∷ g ∷ h ∷ i ∷ j ∷ k ∷ l ∷ m ∷ n ∷ o ∷ q ∷ rest) =
    with_port (ip (v6 (a, b, c, d) (e, f, g, h) (i, j, k, l) (m, n, o, q))) rest
read_v6 _ = none

unfoldable read_domain : Text → Option (Address × ℕ)
unfolding read_port
read_domain [] = none
read_domain (n ∷ rest) =
    if ltb (length rest) n then none else with_port (domain (take n rest)) (drop n rest)

unfoldable pub read_request : Text → Option (Address × ℕ)
unfolding read_v4 read_v6 read_domain
read_request (version ∷ command ∷ reserved ∷ address_type ∷ rest) =
    if not (nat_beq version 0x05)
    then none
    else if not (nat_beq command 0x01)
    then none
    else if nat_beq address_type 0x01
    then read_v4 rest
    else if nat_beq address_type 0x04
    then read_v6 rest
    else if nat_beq address_type 0x03
    then read_domain rest
    else none
read_request _ = none

two_digits : (port : ℕ) → port / 256 * 256 + port % 256 ≡ port
two_digits port = omega arith

read_request-push_ip_address :
    (a : IpAddr) (port : ℕ)
    → read_request (push_ip_address (0x05 ∷ 0x01 ∷ 0x00 ∷ []) a port) ≡ some (ip a, port)
unfolding read_request read_v4 read_v6 read_port push_ip_address octets to_be_bytes
read_request-push_ip_address (v4 (a, b, c, d)) port =
    ap (λ n. some (ip (v4 (a, b, c, d)), n)) (two_digits port)
read_request-push_ip_address (v6 (a, b, c, d) (e, f, g, h) (i, j, k, l) (m, n, o, q)) port =
    ap (λ z. some (ip (v6 (a, b, c, d) (e, f, g, h) (i, j, k, l) (m, n, o, q)), z))
      (two_digits port)

take-append : (s t : Text) → take (length s) (s ++ t) ≡ s
take-append [] t = refl
take-append (c ∷ s) t = ap (λ x. c ∷ x) (take-append s t)

drop-append : (s t : Text) → drop (length s) (s ++ t) ≡ t
drop-append [] t = refl
drop-append (c ∷ s) t = drop-append s t

read_domain-append :
    (host : Text) (port : ℕ)
    → length host ≤ 255
    → read_domain (length host % 256 ∷ host ++ to_be_bytes port) ≡ some (domain host, port)
unfolding read_domain read_port to_be_bytes
read_domain-append host port short =
    let n : length host % 256 ≡ length host = omega arith in
    let fits : ltb (length (host ++ to_be_bytes port)) (length host) ≡ false =
      ground (arith, length-append host (to_be_bytes port)) in
    rw n (
      rw fits (
        rw (take-append host (to_be_bytes port), drop-append host (to_be_bytes port))
          (ap (λ z. some (domain host, z)) (two_digits port))))

read_request-push_domain_address :
    (host : Text) (port : ℕ) (said : Text)
    → push_domain_address (0x05 ∷ 0x01 ∷ 0x00 ∷ []) host port ≡ inr said
    → read_request said ≡ some (domain host, port)
unfolding read_request push_domain_address
read_request-push_domain_address host port said e = elim (Bool-cases (ltb 255 (length host))) [
  | inl a ↦ absurd (ground (arith, e, a))
  | inr a ↦
      let is : (0x05 ∷ 0x01 ∷ 0x00 ∷ []) ++ (0x03 ∷ length host % 256 ∷ host) ++ to_be_bytes port
          ≡ said =
        ground (arith, e, a) in
      subst (λ x. read_request x ≡ some (domain host, port)) is
        (read_domain-append host port (ground (arith, a)))
]

module _ (h : Host) (p : ProxyUrl) where
  -- The request that `encode_address` makes, read as RFC 1928 has it, asks for the target's own
  -- port, at the address that the host's name spells, or by this very name where the proxy is to
  -- resolve it, or at the first address of the client's own lookup.
  pub encode_address-Leads :
      (target : HostPort) (said : Text)
      → encode_address h p (0x05 ∷ 0x01 ∷ 0x00 ∷ []) target ≡ inr said
      → (a : Address) × Leads h p target a × (read_request said ≡ some (a, target.port))
  unfolding encode_address
  encode_address-Leads target said e = elim (Option-cases (h.parse_ip target.host)) [
    | inr (a, n) ↦
        let is : push_ip_address (0x05 ∷ 0x01 ∷ 0x00 ∷ []) a target.port ≡ said =
          ground (arith, e, n) in
        (
          ip a,
          Leads.literal a n,
          ap read_request (sym is) ∙ read_request-push_ip_address a target.port,
        )
    | inl n ↦ elim (Bool-cases (is_socks5h p.scheme)) [
      | inl b ↦ (
        domain target.host,
        Leads.named n b,
        read_request-push_domain_address target.host target.port said (ground (arith, e, n, b)),
      )
      | inr b ↦ elim (Option-cases (h.lookup_host target.host target.port)) [
        | inl m ↦ absurd (ground (arith, e, n, b, m))
        | inr ([], m) ↦ absurd (ground (arith, e, n, b, m))
        | inr (a ∷ others, m) ↦
            let is : push_ip_address (0x05 ∷ 0x01 ∷ 0x00 ∷ []) a target.port ≡ said =
              ground (arith, e, n, b, m) in
            (
              ip a,
              Leads.resolved a others n b m,
              ap read_request (sym is) ∙ read_request-push_ip_address a target.port,
            )
      ]
    ]
  ]
