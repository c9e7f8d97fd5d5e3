-- ===== src/Proxy/Socks5/Tests.antt =====
-- Tests of the negotiation with a SOCKS5 proxy on concrete inputs.
use chromulate.Prelude.{none, some, [], ◌∷◌, ◌++◌, ◌≡◌, inr, refl}
use chromulate.Prelude.Text.{Text, ascii, text_comparable}
use chromulate.Proxy.Stream.{
  socks5h, ProxyUrl, has_credentials, HostPort, Host, Stream, write_all, read_exact,
}
use chromulate.Proxy.Socks5.{
  contains, check_credential_length, check_credentials, auth_request, methods, greeting, check_auth,
  receive_auth, exchange_credentials, authenticate, check_selection, use_method, select_method,
  receive_selection, handshake, to_be_bytes, push_domain_address, encode_address, reply_to_result,
  discard, discard_bound, check_reply, accept_reply, receive_reply, send_request, request_connect,
  connect,
}
use chromulate.Proxy.Socks5.Reply.{IsTunnel, connect-IsTunnel}
use chromulate.Proxy.Socks5.Encoding.{Address, Leads, read_request, encode_address-Leads}

abbrev system : Host
system = record {
  parse_ip = λ t. none;
  lookup_host = λ t n. none;
  write_error = λ t. none;
  read_error = ascii "eof";
  decimal = λ n. [];
  hex = λ n. [];
}

abbrev with_password : ProxyUrl
with_password = record {
  scheme = socks5h;
  username = some (ascii "me");
  password = some (ascii "pw");
  shown = [];
}

abbrev target : HostPort
target = record { host = ascii "a.de"; port = 443 }

-- The last byte is the tunnel's.
abbrev opened : Stream
opened = record {
  incoming = 5 ∷ 2 ∷ 1 ∷ 0 ∷ 5 ∷ 0 ∷ 0 ∷ 1 ∷ 9 ∷ 9 ∷ 9 ∷ 9 ∷ 0 ∷ 80 ∷ 77 ∷ [];
  sent = [];
}

abbrev request_bytes : Text
request_bytes = 5 ∷ 1 ∷ 0 ∷ 3 ∷ 4 ∷ ascii "a.de" ++ (1 ∷ 187 ∷ [])

abbrev tunnelled : Stream
tunnelled = record {
  incoming = 77 ∷ [];
  sent = (5 ∷ 2 ∷ 2 ∷ 0 ∷ []) ++ (1 ∷ 2 ∷ ascii "me" ++ (2 ∷ ascii "pw")) ++ request_bytes;
}

connected : connect system with_password target opened ≡ (inr tt, tunnelled)
unfolding connect handshake write_all greeting methods has_credentials receive_selection read_exact
    select_method check_selection contains use_method authenticate check_credentials
    check_credential_length exchange_credentials auth_request receive_auth check_auth
    request_connect encode_address push_domain_address to_be_bytes send_request receive_reply
    accept_reply check_reply reply_to_result discard_bound discard
connected = refl

connect-IsTunnel_example : IsTunnel system with_password target opened tunnelled
connect-IsTunnel_example =
    connect-IsTunnel system with_password target opened tunnelled tt connected

encoded : encode_address system with_password (0x05 ∷ 0x01 ∷ 0x00 ∷ []) target ≡ inr request_bytes
unfolding encode_address push_domain_address to_be_bytes
encoded = refl

encode_address-Leads_example :
    (a : Address) × Leads system with_password target a
    × (read_request request_bytes ≡ some (a, target.port))
encode_address-Leads_example =
    encode_address-Leads system with_password target request_bytes encoded
