-- ===== src/Proxy/Socks5.antt =====
-- crates/chromulate-proxy/src/socks5.rs: the negotiation of a tunnel through a SOCKS5 proxy.
pub mod Tunnel
pub mod Reply
pub mod Encoding
mod Tests
use chromulate.Prelude.{
  ℕ, zero, suc, ◌+◌, ◌/◌, ◌%◌, Bool, true, false, not, ◌||◌, Option, none, some, List, [], ◌∷◌,
  ◌++◌, ◌⊎◌, inl, inr, ltb, leb, nat_beq, if◌then◌else◌, length, take, get_elem?, is_some,
  unwrap_or,
}
use chromulate.Prelude.Text.{Text, ascii}
use chromulate.Core.Error.{Error, proxy, builder, resolve_error}
use chromulate.Proxy.Stream.{
  IpAddr, v4, v6, Four, is_socks5h, ProxyUrl, has_credentials, HostPort, Host, Step, Outcome,
  and_then, return, checked, byte_at, proxy_error, write_all, read_exact,
}

unfoldable pub contains : ℕ → Text → Bool
contains b [] = false
contains b (c ∷ s) = nat_beq c b || contains b s

-- What the client sends of the credentials.
unfoldable pub auth_request : ProxyUrl → Text
auth_request p =
    let username : Text = unwrap_or p.username [] in
    let password : Text = unwrap_or p.password [] in
    0x01 ∷ length username % 256 ∷ username ++ length password % 256 ∷ password

unfoldable pub methods : ProxyUrl → Text
methods p = if has_credentials p then 0x02 ∷ 0x00 ∷ [] else 0x00 ∷ []

unfoldable pub greeting : ProxyUrl → Text
unfolding methods
greeting p = 0x05 ∷ length (methods p) ∷ methods p

module _ (h : Host) (p : ProxyUrl) where
  unfoldable pub check_credential_length : Text → Text → Outcome Unit
  check_credential_length field value =
      if ltb 255 (length value)
      then inl (
          builder (
            ascii "SOCKS5 "
            ++ field
            ++ ascii " is "
            ++ h.decimal (length value)
            ++ ascii " bytes, longer than the 255 bytes RFC 1929 allows"))
      else inr tt

  unfoldable pub check_auth : Text → Outcome Unit
  unfolding proxy_error
  check_auth response =
      if not (nat_beq (byte_at 0 response) 0x01)
      then proxy_error h p
          (ascii "proxy replied with an unsupported username/password sub-negotiation version")
      else if not (nat_beq (byte_at 1 response) 0x00)
      then proxy_error h p (ascii "SOCKS5 username/password authentication failed")
      else inr tt

  unfoldable pub check_credentials : Outcome Unit
  unfolding check_credential_length
  check_credentials = elim (check_credential_length (ascii "username") (unwrap_or p.username [])) [
    | inl e ↦ inl e
    | inr _ ↦ check_credential_length (ascii "password") (unwrap_or p.password [])
  ]

  unfoldable pub receive_auth : Step Unit
  unfolding read_exact check_auth
  receive_auth = and_then (read_exact h p 2) (λ response. checked (check_auth response))

  unfoldable pub exchange_credentials : Step Unit
  unfolding write_all auth_request receive_auth
  exchange_credentials = and_then (write_all h p (auth_request p)) (λ _. receive_auth)

  unfoldable pub authenticate : Step Unit
  unfolding check_credentials exchange_credentials
  authenticate = and_then (checked check_credentials) (λ _. exchange_credentials)

  -- The method that the proxy selects, once it is one that was offered.
  unfoldable pub check_selection : Text → Outcome ℕ
  unfolding proxy_error methods contains
  check_selection selection =
      let selected : ℕ = byte_at 1 selection in
      if not (nat_beq (byte_at 0 selection) 0x05)
      then proxy_error h p
          (ascii "proxy replied with unsupported SOCKS version " ++ h.hex (byte_at 0 selection))
      else if nat_beq selected 0xFF
      then proxy_error h p (ascii "proxy rejected all offered authentication methods")
      else if not (contains selected (methods p))
      then proxy_error h p (
          ascii "proxy selected authentication method "
          ++ h.hex selected
          ++ ascii ", which the client did not offer")
      else inr selected

  unfoldable pub use_method : ℕ → Step Unit
  unfolding authenticate proxy_error
  use_method selected =
      if nat_beq selected 0x00
      then return tt
      else if nat_beq selected 0x02
      then authenticate
      else checked (
          proxy_error h p
            (ascii "proxy selected an unsupported authentication method " ++ h.hex selected))

  unfoldable pub select_method : Text → Step Unit
  unfolding check_selection use_method
  select_method selection = and_then (checked (check_selection selection)) use_method

  unfoldable pub receive_selection : Step Unit
  unfolding read_exact select_method
  receive_selection = and_then (read_exact h p 2) select_method

  unfoldable pub handshake : Step Unit
  unfolding write_all greeting receive_selection
  handshake = and_then (write_all h p (greeting p)) (λ _. receive_selection)

unfoldable pub octets : Four → Text
octets (a, b, c, d) = a ∷ b ∷ c ∷ d ∷ []

unfoldable pub to_be_bytes : ℕ → Text
to_be_bytes port = port / 256 ∷ port % 256 ∷ []

unfoldable pub push_ip_address : Text → IpAddr → ℕ → Text
unfolding octets to_be_bytes
push_ip_address buf (v4 a) port = buf ++ (0x01 ∷ octets a) ++ to_be_bytes port
push_ip_address buf (v6 a b c d) port =
    buf ++ (0x04 ∷ octets a ++ octets b ++ octets c ++ octets d) ++ to_be_bytes port

unfoldable pub push_domain_address : Text → Text → ℕ → Outcome Text
unfolding to_be_bytes
push_domain_address buf host port =
    if ltb 255 (length host)
    then inl (builder (ascii "SOCKS5 domain name `" ++ host ++ ascii "` is longer than 255 bytes"))
    else inr (buf ++ (0x03 ∷ length host % 256 ∷ host) ++ to_be_bytes port)

module _ (h : Host) (p : ProxyUrl) where
  unfoldable pub encode_address : Text → HostPort → Outcome Text
  unfolding push_ip_address push_domain_address
  encode_address buf target = elim (h.parse_ip target.host) [
    | some ip ↦ inr (push_ip_address buf ip target.port)
    | none ↦
        if is_socks5h p.scheme
        then push_domain_address buf target.host target.port
        else (elim (h.lookup_host target.host target.port) [
          | none ↦ inl (resolve_error target.host)
          | some addresses ↦ elim addresses [
            | [] ↦ inl (resolve_error target.host)
            | resolved ∷ _ ↦ inr (push_ip_address buf resolved target.port)
          ]
        ])
  ]

  -- The reason that a reply's code stands for.
  unfoldable pub reply_message : ℕ → Text
  reply_message reply =
      if nat_beq reply 0x01
      then ascii "general SOCKS server failure"
      else if nat_beq reply 0x02
      then ascii "connection not allowed by ruleset"
      else if nat_beq reply 0x03
      then ascii "network unreachable"
      else if nat_beq reply 0x04
      then ascii "host unreachable"
      else if nat_beq reply 0x05
      then ascii "connection refused"
      else if nat_beq reply 0x06
      then ascii "TTL expired"
      else if nat_beq reply 0x07
      then ascii "command not supported"
      else if nat_beq reply 0x08
      then ascii "address type not supported"
      else ascii "unknown SOCKS5 reply code " ++ h.hex reply

  unfoldable pub reply_to_result : ℕ → Outcome Unit
  unfolding proxy_error reply_message
  reply_to_result reply =
      if nat_beq reply 0x00 then inr tt else proxy_error h p (reply_message reply)

  unfoldable pub discard : ℕ → Step Unit
  unfolding read_exact
  discard len = and_then (read_exact h p len) (λ _. return tt)

  unfoldable pub discard_domain : Step Unit
  unfolding discard read_exact
  discard_domain = and_then (read_exact h p 1) (λ len. discard (byte_at 0 len + 2))

  -- The bound address, which is read and dropped.
  unfoldable pub discard_bound : ℕ → Step Unit
  unfolding discard discard_domain proxy_error
  discard_bound address_type =
      if nat_beq address_type 0x01
      then discard (4 + 2)
      else if nat_beq address_type 0x04
      then discard (16 + 2)
      else if nat_beq address_type 0x03
      then discard_domain
      else checked (
          proxy_error h p
            (ascii "proxy reply used an unsupported address type " ++ h.hex address_type))

  unfoldable pub check_reply : Text → Outcome Unit
  unfolding proxy_error reply_to_result
  check_reply head =
      if not (nat_beq (byte_at 0 head) 0x05)
      then proxy_error h p
          (ascii "proxy replied with unsupported SOCKS version " ++ h.hex (byte_at 0 head))
      else reply_to_result (byte_at 1 head)

  unfoldable pub accept_reply : Text → Step Unit
  unfolding check_reply discard_bound
  accept_reply head = and_then (checked (check_reply head)) (λ _. discard_bound (byte_at 3 head))

  unfoldable pub receive_reply : Step Unit
  unfolding read_exact accept_reply
  receive_reply = and_then (read_exact h p 4) accept_reply

  unfoldable pub send_request : Text → Step Unit
  unfolding write_all receive_reply
  send_request request = and_then (write_all h p request) (λ _. receive_reply)

  unfoldable pub request_connect : HostPort → Step Unit
  unfolding encode_address send_request
  request_connect target =
      and_then (checked (encode_address (0x05 ∷ 0x01 ∷ 0x00 ∷ []) target)) send_request

  -- `connect`, on the stream that `dial` gave.
  unfoldable pub connect : HostPort → Step Unit
  unfolding handshake request_connect
  connect target = and_then (handshake h p) (λ _. request_connect target)
