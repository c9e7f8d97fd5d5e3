-- ===== src/Proxy/Socks5/Reply.antt =====
-- The reply to a request of crates/chromulate-proxy/src/socks5.rs, and the whole of `connect`.
use chromulate.Prelude.{
  ℕ, ◌+◌, [], ◌∷◌, ◌++◌, ◌≡◌, ◌⊎◌, inl, inr, refl, ap, ◌∙◌, subst, arith, nat_beq, length,
  Bool-cases,
}
use chromulate.Prelude.Text.{Text}
use chromulate.Proxy.Stream.{
  ProxyUrl, HostPort, Host, Stream, Outcome, return, checked, byte_at, proxy_error, write_all,
  read_exact,
}
use chromulate.Proxy.Socks5.{
  handshake, encode_address, reply_to_result, discard, discard_domain, discard_bound, check_reply,
  accept_reply, receive_reply, send_request, request_connect, connect,
}
use chromulate.Proxy.Stream.Steps.{
  Spoke, Spoke-append, append_nil, Ensures, Ensures-imp, and_then-Ensures, pure-Ensures, four_bytes,
  write_all-Ensures, read_exact-Ensures,
}
use chromulate.Proxy.Socks5.Tunnel.{IsHandshake, handshake-Ensures}

-- The bound address and port, by the type of the address.
abbrev pub IsBound : ℕ → Text → Type 0
IsBound address_type bound =
    ((address_type ≡ 0x01) × (length bound ≡ 6))
    ⊎ (((address_type ≡ 0x04) × (length bound ≡ 18))
        ⊎ ((address_type ≡ 0x03)
            × ((n : ℕ) × (rest : Text) × (bound ≡ n ∷ rest) × (length rest ≡ n + 2))))

-- A reply that grants the tunnel.
abbrev pub IsReply : Text → Type 0
IsReply got =
    (reserved address_type : ℕ) × (bound : Text) × (got
      ≡ 0x05 ∷ 0x00 ∷ reserved ∷ address_type ∷ bound)
    × IsBound address_type bound

one_byte : (s : Text) → length s ≡ 1 → s ≡ byte_at 0 s ∷ []
one_byte [] h = absurd (omega (arith, h))
one_byte (a ∷ []) h = refl
one_byte (a ∷ b ∷ s) h = absurd (omega (arith, h))

two_first : {a b c d : ℕ} (s : Text) → a ≡ c → b ≡ d → a ∷ b ∷ s ≡ c ∷ d ∷ s
two_first {b = b} {c = c} s e f = ap (λ x. x ∷ b ∷ s) e ∙ ap (λ x. c ∷ x ∷ s) f

module _ (h : Host) (p : ProxyUrl) where
  discard-Ensures :
      (n : ℕ) (s : Stream)
      → Ensures (λ _ t. (buf : Text) × Spoke s t buf [] × (length buf ≡ n)) (discard h p n s)
  unfolding discard
  discard-Ensures n s =
      and_then-Ensures (λ buf t. Spoke s t buf [] × (length buf ≡ n))
        (λ _ t. (buf : Text) × Spoke s t buf [] × (length buf ≡ n)) (read_exact h p n)
        (λ _. return tt) s (read_exact-Ensures h p n s) (λ buf t (spoke, long). (buf, spoke, long))

  discard_domain-Ensures :
      (s : Stream)
      → Ensures
          (λ _ t. (n : ℕ) × (rest : Text) × Spoke s t (n ∷ rest) [] × (length rest ≡ n + 2))
          (discard_domain h p s)
  unfolding discard_domain
  discard_domain-Ensures s =
      let Q : Unit → Stream → Type 0 =
        λ _ t. (n : ℕ) × (rest : Text) × Spoke s t (n ∷ rest) [] × (length rest ≡ n + 2) in
      and_then-Ensures (λ len t. Spoke s t len [] × (length len ≡ 1)) Q (read_exact h p 1)
        (λ len. discard h p (byte_at 0 len + 2)) s (read_exact-Ensures h p 1 s)
        (λ len t (read, one).
          Ensures-imp (λ _ u. (buf : Text) × Spoke t u buf [] × (length buf ≡ byte_at 0 len + 2)) Q
            (discard h p (byte_at 0 len + 2) t)
            (λ _ u (rest, spoke, long). (
              byte_at 0 len,
              rest,
              subst (λ x. Spoke s u (x ++ rest) []) (one_byte len one)
                  (Spoke-append s t u len rest [] [] read spoke),
              long,
            ))
            (discard-Ensures (byte_at 0 len + 2) t))

  discard_bound-Ensures :
      (address_type : ℕ) (s : Stream)
      → Ensures
          (λ _ t. (bound : Text) × Spoke s t bound [] × IsBound address_type bound)
          (discard_bound h p address_type s)
  unfolding discard_bound proxy_error
  discard_bound-Ensures address_type s =
      let Q : Unit → Stream → Type 0 =
        λ _ t. (bound : Text) × Spoke s t bound [] × IsBound address_type bound in
      elim (Bool-cases (nat_beq address_type 0x01)) [
        | inl a ↦
            rw (a, discard_bound)
              (Ensures-imp (λ _ t. (buf : Text) × Spoke s t buf [] × (length buf ≡ 6)) Q
                (discard h p 6 s)
                (λ _ t (buf, spoke, long). (buf, spoke, inl (ground (arith, a), long)))
                (discard-Ensures 6 s))
        | inr a ↦ elim (Bool-cases (nat_beq address_type 0x04)) [
          | inl b ↦
              rw (a, b, discard_bound)
                (Ensures-imp (λ _ t. (buf : Text) × Spoke s t buf [] × (length buf ≡ 18)) Q
                  (discard h p 18 s)
                  (λ _ t (buf, spoke, long). (buf, spoke, inr (inl (ground (arith, b), long))))
                  (discard-Ensures 18 s))
          | inr b ↦ elim (Bool-cases (nat_beq address_type 0x03)) [
            | inl c ↦
                rw (a, b, c, discard_bound)
                  (Ensures-imp
                    (λ _ t.
                      (n : ℕ) × (rest : Text) × Spoke s t (n ∷ rest) [] × (length rest ≡ n + 2))
                    Q (discard_domain h p s)
                    (λ _ t (n, rest, spoke, long).
                      (n ∷ rest, spoke, inr (inr (ground (arith, c), (n, rest, refl, long)))))
                    (discard_domain-Ensures s))
            | inr c ↦ rw (a, b, c, discard_bound) tt
          ]
        ]
      ]

  check_reply-inr :
      (head : Text) (u : Unit)
      → check_reply h p head ≡ inr u
      → (byte_at 0 head ≡ 0x05) × (byte_at 1 head ≡ 0x00)
  unfolding check_reply reply_to_result proxy_error
  check_reply-inr head u e = elim (Bool-cases (nat_beq (byte_at 0 head) 0x05)) [
    | inr a ↦ absurd (ground (arith, e, a))
    | inl a ↦ elim (Bool-cases (nat_beq (byte_at 1 head) 0x00)) [
      | inr b ↦ absurd (ground (arith, e, a, b))
      | inl b ↦ (ground (arith, a), ground (arith, b))
    ]
  ]

  accept_reply-Ensures :
      (head : Text) (s : Stream)
      → length head ≡ 4
      → Ensures
          (λ _ t. (bound : Text) × Spoke s t bound [] × IsReply (head ++ bound))
          (accept_reply h p head s)
  unfolding accept_reply
  accept_reply-Ensures head s four =
      let Q : Unit → Stream → Type 0 =
        λ _ t. (bound : Text) × Spoke s t bound [] × IsReply (head ++ bound) in
      let Fits : Unit → Stream → Type 0 =
        λ _ t. (t ≡ s) × (head ≡ 0x05 ∷ 0x00 ∷ byte_at 2 head ∷ byte_at 3 head ∷ []) in
      and_then-Ensures Fits Q (checked (check_reply h p head))
        (λ _. discard_bound h p (byte_at 3 head)) s
        (pure-Ensures Fits (check_reply h p head) s (λ u e.
          let (a, b) = check_reply-inr head u e in
          (refl, four_bytes head four ∙ two_first (byte_at 2 head ∷ byte_at 3 head ∷ []) a b)))
        (λ _ t (here, is).
          Ensures-imp (λ _ u. (bound : Text) × Spoke t u bound [] × IsBound (byte_at 3 head) bound)
            Q (discard_bound h p (byte_at 3 head) t)
            (λ _ u (bound, spoke, fits). (
              bound,
              subst (λ x. Spoke x u bound []) here spoke,
              (byte_at 2 head, byte_at 3 head, bound, ap (λ x. x ++ bound) is, fits),
            ))
            (discard_bound-Ensures (byte_at 3 head) t))

  receive_reply-Ensures :
      (s : Stream)
      → Ensures (λ _ t. (got : Text) × Spoke s t got [] × IsReply got) (receive_reply h p s)
  unfolding receive_reply
  receive_reply-Ensures s =
      let Q : Unit → Stream → Type 0 = λ _ t. (got : Text) × Spoke s t got [] × IsReply got in
      and_then-Ensures (λ head t. Spoke s t head [] × (length head ≡ 4)) Q (read_exact h p 4)
        (accept_reply h p) s (read_exact-Ensures h p 4 s)
        (λ head t (read, four).
          Ensures-imp (λ _ u. (bound : Text) × Spoke t u bound [] × IsReply (head ++ bound)) Q
            (accept_reply h p head t)
            (λ _ u (bound, spoke, reply).
              (head ++ bound, Spoke-append s t u head bound [] [] read spoke, reply))
            (accept_reply-Ensures head t four))

  abbrev pub IsRequest : HostPort → Text → Type 0
  IsRequest target said = encode_address h p (0x05 ∷ 0x01 ∷ 0x00 ∷ []) target ≡ inr said

  send_request-Ensures :
      (request : Text) (s : Stream)
      → Ensures
          (λ _ t. (got : Text) × Spoke s t got request × IsReply got)
          (send_request h p request s)
  unfolding send_request
  send_request-Ensures request s =
      let Q : Unit → Stream → Type 0 = λ _ t. (got : Text) × Spoke s t got request × IsReply got in
      and_then-Ensures (λ _ t. Spoke s t [] request) Q (write_all h p request)
        (λ _. receive_reply h p) s (write_all-Ensures h p request s)
        (λ _ t wrote.
          Ensures-imp (λ _ u. (got : Text) × Spoke t u got [] × IsReply got) Q (receive_reply h p t)
            (λ _ u (got, spoke, reply). (
              got,
              subst (Spoke s u got) (append_nil request)
                  (Spoke-append s t u [] got request [] wrote spoke),
              reply,
            ))
            (receive_reply-Ensures t))

  request_connect-Ensures :
      (target : HostPort) (s : Stream)
      → Ensures
          (λ _ t. (got said : Text) × Spoke s t got said × IsReply got × IsRequest target said)
          (request_connect h p target s)
  unfolding request_connect
  request_connect-Ensures target s =
      let Q : Unit → Stream → Type 0 =
        λ _ t. (got said : Text) × Spoke s t got said × IsReply got × IsRequest target said in
      let Fits : Text → Stream → Type 0 = λ request t. (t ≡ s) × IsRequest target request in
      let encoded : Outcome Text = encode_address h p (0x05 ∷ 0x01 ∷ 0x00 ∷ []) target in
      and_then-Ensures Fits Q (checked encoded) (send_request h p) s
        (pure-Ensures Fits encoded s (λ request e. (refl, e)))
        (λ request t (here, is).
          Ensures-imp (λ _ u. (got : Text) × Spoke t u got request × IsReply got) Q
            (send_request h p request t)
            (λ _ u (got, spoke, reply).
              (got, request, subst (λ x. Spoke x u got request) here spoke, reply, is))
            (send_request-Ensures request t))

  -- What the proxy and the client say before the tunnel.
  abbrev pub IsTunnel : HostPort → Stream → Stream → Type 0
  IsTunnel target s t =
      (got said got' said' : Text) × Spoke s t (got ++ got') (said ++ said')
      × IsHandshake h p got said
      × IsReply got'
      × IsRequest target said'

  -- Where `connect` succeeds, the proxy has said one handshake and one granting reply, whole and
  -- with nothing else, so that what it says next is the tunnel's first byte. The method it selected
  -- is one that was offered. The client has sent the greeting, the credentials if that method asks
  -- for them and the URL has any, each with its true length, and the request for the target.
  pub connect-IsTunnel :
      (target : HostPort) (s t : Stream) (u : Unit)
      → connect h p target s ≡ (inr u, t)
      → IsTunnel target s t
  unfolding connect
  connect-IsTunnel target s t u e = subst (Ensures (λ _ v. IsTunnel target s v)) e (
      and_then-Ensures (λ _ v. (got said : Text) × Spoke s v got said × IsHandshake h p got said)
        (λ _ v. IsTunnel target s v) (handshake h p) (λ _. request_connect h p target) s
        (handshake-Ensures h p s)
        (λ _ v (got, said, first, hand).
          Ensures-imp
            (λ _ w. (got said : Text) × Spoke v w got said × IsReply got × IsRequest target said)
            (λ _ w. IsTunnel target s w) (request_connect h p target v)
            (λ _ w (got', said', second, reply, request). (
              got,
              said,
              got',
              said',
              Spoke-append s v w got got' said said' first second,
              hand,
              reply,
              request,
            ))
            (request_connect-Ensures target v)))
