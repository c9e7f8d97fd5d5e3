-- ===== src/Proxy/Socks5/Tunnel.antt =====
-- What has passed on the stream once `connect` of crates/chromulate-proxy/src/socks5.rs succeeds.
use chromulate.Prelude.{
  ℕ, ◌%◌, ◌≤◌, true, [], ◌∷◌, ◌++◌, ◌≡◌, ◌⊎◌, inl, inr, refl, ap, ◌∙◌, subst, arith, ltb, nat_beq,
  length, unwrap_or, Bool-cases,
}
use chromulate.Prelude.Text.{Text}
use chromulate.Proxy.Stream.{
  ProxyUrl, has_credentials, Host, Stream, checked, byte_at, proxy_error, write_all, read_exact,
}
use chromulate.Proxy.Socks5.{
  contains, check_credential_length, auth_request, check_auth, check_credentials, receive_auth,
  exchange_credentials, authenticate, methods, greeting, check_selection, use_method, select_method,
  receive_selection, handshake,
}
use chromulate.Proxy.Stream.Steps.{
  Spoke, Spoke-append, Spoke-refl, append_nil, Ensures, Ensures-imp, and_then-Ensures, pure-Ensures,
  two_bytes, write_all-Ensures, read_exact-Ensures,
}

module _ (h : Host) (p : ProxyUrl) where
  check_auth-inr :
      (r : Text) (u : Unit) → check_auth h p r ≡ inr u → (byte_at 0 r ≡ 1) × (byte_at 1 r ≡ 0)
  unfolding check_auth proxy_error
  check_auth-inr r u e = elim (Bool-cases (nat_beq (byte_at 0 r) 0x01)) [
    | inr a ↦ absurd (ground (arith, e, a))
    | inl a ↦ elim (Bool-cases (nat_beq (byte_at 1 r) 0x00)) [
      | inr b ↦ absurd (ground (arith, e, a, b))
      | inl b ↦ (ground (arith, a), ground (arith, b))
    ]
  ]

  -- The credentials as RFC 1929 has them.
  abbrev pub IsAuth : Text → Type 0
  IsAuth said =
      let username : Text = unwrap_or p.username [] in
      let password : Text = unwrap_or p.password [] in
      (length username ≤ 255)
      × (length password ≤ 255)
      × (said ≡ 0x01 ∷ length username ∷ username ++ length password ∷ password)

  auth_request-IsAuth :
      length (unwrap_or p.username []) ≤ 255
      → length (unwrap_or p.password []) ≤ 255
      → IsAuth (auth_request p)
  unfolding auth_request
  auth_request-IsAuth a b = (a, b, rw (small a, small b) refl)
    where
      small : {n : ℕ} → n ≤ 255 → n % 256 ≡ n
      small l = omega arith

  check_credentials_short :
      (u : Unit)
      → check_credentials h p ≡ inr u
      → (length (unwrap_or p.username []) ≤ 255) × (length (unwrap_or p.password []) ≤ 255)
  unfolding check_credentials check_credential_length
  check_credentials_short u e = elim (Bool-cases (ltb 255 (length (unwrap_or p.username [])))) [
    | inl a ↦ absurd (ground (arith, e, a))
    | inr a ↦ elim (Bool-cases (ltb 255 (length (unwrap_or p.password [])))) [
      | inl b ↦ absurd (ground (arith, e, a, b))
      | inr b ↦ (ground (arith, a), ground (arith, b))
    ]
  ]

  receive_auth-Ensures :
      (s : Stream) → Ensures (λ _ t. Spoke s t (0x01 ∷ 0x00 ∷ []) []) (receive_auth h p s)
  unfolding receive_auth
  receive_auth-Ensures s =
      and_then-Ensures (λ buf t. Spoke s t buf [] × (length buf ≡ 2))
        (λ _ t. Spoke s t (0x01 ∷ 0x00 ∷ []) []) (read_exact h p 2)
        (λ r. checked (check_auth h p r)) s (read_exact-Ensures h p 2 s)
        (λ r t (spoke, two).
          pure-Ensures (λ _ u. Spoke s u (0x01 ∷ 0x00 ∷ []) []) (check_auth h p r) t
            (λ u e.
              let (a, b) = check_auth-inr r u e in
              let is : r ≡ 0x01 ∷ 0x00 ∷ [] = two_bytes r two ∙ rw (a, b) refl in
              subst (λ x. Spoke s t x []) is spoke))

  exchange_credentials-Ensures :
      (s : Stream)
      → Ensures (λ _ t. Spoke s t (0x01 ∷ 0x00 ∷ []) (auth_request p)) (exchange_credentials h p s)
  unfolding exchange_credentials
  exchange_credentials-Ensures s =
      and_then-Ensures (λ _ t. Spoke s t [] (auth_request p))
        (λ _ t. Spoke s t (0x01 ∷ 0x00 ∷ []) (auth_request p)) (write_all h p (auth_request p))
        (λ _. receive_auth h p) s (write_all-Ensures h p (auth_request p) s)
        (λ _ t wrote.
          Ensures-imp _ _ (receive_auth h p t)
            (λ _ u read.
              subst (Spoke s u (0x01 ∷ 0x00 ∷ [])) (append_nil (auth_request p))
                (Spoke-append s t u [] (0x01 ∷ 0x00 ∷ []) (auth_request p) [] wrote read))
            (receive_auth-Ensures t))

  authenticate-Ensures :
      (s : Stream)
      → Ensures
          (λ _ t. Spoke s t (0x01 ∷ 0x00 ∷ []) (auth_request p) × IsAuth (auth_request p))
          (authenticate h p s)
  unfolding authenticate
  authenticate-Ensures s =
      and_then-Ensures (λ _ t. (t ≡ s) × IsAuth (auth_request p))
        (λ _ t. Spoke s t (0x01 ∷ 0x00 ∷ []) (auth_request p) × IsAuth (auth_request p))
        (checked (check_credentials h p)) (λ _. exchange_credentials h p) s
        (pure-Ensures (λ _ t. (t ≡ s) × IsAuth (auth_request p)) (check_credentials h p) s
          (λ u e. (
            refl,
            auth_request-IsAuth (check_credentials_short u e).0 (check_credentials_short u e).1,
          )))
        (λ _ t (here, auth).
          subst
            (λ x.
              Ensures
                (λ _ u. Spoke x u (0x01 ∷ 0x00 ∷ []) (auth_request p) × IsAuth (auth_request p))
                (exchange_credentials h p t))
            here
            (Ensures-imp (λ _ u. Spoke t u (0x01 ∷ 0x00 ∷ []) (auth_request p))
              (λ _ u. Spoke t u (0x01 ∷ 0x00 ∷ []) (auth_request p) × IsAuth (auth_request p))
              (exchange_credentials h p t) (λ _ u spoke. (spoke, auth))
              (exchange_credentials-Ensures t)))

  -- What follows the selection of a method: nothing, or the exchange of credentials.
  abbrev pub IsMethod : ℕ → Text → Text → Type 0
  IsMethod selected got said =
      ((selected ≡ 0x00) × (got ≡ []) × (said ≡ []))
      ⊎ ((selected ≡ 0x02) × (got ≡ 0x01 ∷ 0x00 ∷ []) × IsAuth said)

  use_method-Ensures :
      (selected : ℕ) (s : Stream)
      → Ensures
          (λ _ t. (got said : Text) × Spoke s t got said × IsMethod selected got said)
          (use_method h p selected s)
  unfolding use_method proxy_error
  use_method-Ensures selected s = elim (Bool-cases (nat_beq selected 0x00)) [
    | inl a ↦ rw (a, use_method) ([], [], Spoke-refl s, inl (ground (arith, a), refl, refl))
    | inr a ↦ elim (Bool-cases (nat_beq selected 0x02)) [
      | inr b ↦ rw (a, b, use_method) tt
      | inl b ↦
          rw (a, b, use_method)
            (Ensures-imp
              (λ _ t. Spoke s t (0x01 ∷ 0x00 ∷ []) (auth_request p) × IsAuth (auth_request p))
              (λ _ t. (got said : Text) × Spoke s t got said × IsMethod selected got said)
              (authenticate h p s)
              (λ _ t (spoke, auth).
                (0x01 ∷ 0x00 ∷ [], auth_request p, spoke, inr (ground (arith, b), refl, auth)))
              (authenticate-Ensures s))
    ]
  ]

  check_selection-inr :
      (r : Text) (selected : ℕ)
      → check_selection h p r ≡ inr selected
      → (byte_at 0 r ≡ 0x05) × (byte_at 1 r ≡ selected) × (contains selected (methods p) ≡ true)
  unfolding check_selection proxy_error
  check_selection-inr r selected e = elim (Bool-cases (nat_beq (byte_at 0 r) 0x05)) [
    | inr a ↦ absurd (ground (arith, e, a))
    | inl a ↦ elim (Bool-cases (nat_beq (byte_at 1 r) 0xFF)) [
      | inl b ↦ absurd (ground (arith, e, a, b))
      | inr b ↦ elim (Bool-cases (contains (byte_at 1 r) (methods p))) [
        | inr c ↦ absurd (ground (arith, e, a, b, c))
        | inl c ↦
            let same : byte_at 1 r ≡ selected = ground (arith, e, a, b, c) in
            (ground (arith, a), same, subst (λ m. contains m (methods p) ≡ true) same c)
      ]
    ]
  ]

  contains_two : contains 0x02 (methods p) ≡ true → has_credentials p ≡ true
  unfolding contains methods has_credentials
  contains_two e = elim (Bool-cases (has_credentials p)) [
    | inl a ↦ a
    | inr a ↦ absurd (ground (arith, e, a))
  ]

  -- The negotiation of a method: what the proxy says and what it is told.
  abbrev pub IsHandshake : Text → Text → Type 0
  IsHandshake got said =
      (selected : ℕ) × (got' said' : Text) × (got ≡ 0x05 ∷ selected ∷ got')
      × (said ≡ greeting p ++ said')
      × (selected ≡ 0x02 → has_credentials p ≡ true)
      × IsMethod selected got' said'

  -- What follows the reading of a selection.
  abbrev Selected : Text → Stream → Stream → Type 0
  Selected r s t =
      (selected : ℕ) × (got said : Text) × Spoke s t got said
      × (r ≡ 0x05 ∷ selected ∷ [])
      × (selected ≡ 0x02 → has_credentials p ≡ true)
      × IsMethod selected got said

  select_method-Ensures :
      (r : Text) (s : Stream)
      → length r ≡ 2
      → Ensures (λ _ t. Selected r s t) (select_method h p r s)
  unfolding select_method
  select_method-Ensures r s two =
      and_then-Ensures
        (λ selected t.
          (t ≡ s) × (r ≡ 0x05 ∷ selected ∷ []) × (selected ≡ 0x02 → has_credentials p ≡ true))
        (λ _ t. Selected r s t) (checked (check_selection h p r)) (use_method h p) s
        (pure-Ensures
          (λ selected t.
            (t ≡ s) × (r ≡ 0x05 ∷ selected ∷ []) × (selected ≡ 0x02 → has_credentials p ≡ true))
          (check_selection h p r) s
          (λ m e.
            let (a, b, c) = check_selection-inr r m e in
            (
              refl,
              two_bytes r two ∙ rw (a, b) refl,
              λ q. contains_two (subst (λ k. contains k (methods p) ≡ true) q c),
            )))
        (λ m t (here, is, offered).
          Ensures-imp (λ _ u. (got said : Text) × Spoke t u got said × IsMethod m got said)
            (λ _ u. Selected r s u) (use_method h p m t)
            (λ _ u (got, said, spoke, method).
              (m, got, said, subst (λ x. Spoke x u got said) here spoke, is, offered, method))
            (use_method-Ensures m t))

  pub handshake-Ensures :
      (s : Stream)
      → Ensures
          (λ _ t. (got said : Text) × Spoke s t got said × IsHandshake got said)
          (handshake h p s)
  unfolding handshake receive_selection
  handshake-Ensures s =
      let Q : Unit → Stream → Type 0 =
        λ _ t. (got said : Text) × Spoke s t got said × IsHandshake got said in
      and_then-Ensures (λ _ t. Spoke s t [] (greeting p)) Q (write_all h p (greeting p))
        (λ _. receive_selection h p) s (write_all-Ensures h p (greeting p) s)
        (λ _ t wrote.
          and_then-Ensures (λ r u. Spoke t u r [] × (length r ≡ 2)) Q (read_exact h p 2)
            (select_method h p) t (read_exact-Ensures h p 2 t)
            (λ r u (read, two).
              Ensures-imp (λ _ v. Selected r u v) Q (select_method h p r u)
                (λ _ v (m, got, said, spoke, is, offered, method). (
                  [] ++ (r ++ got),
                  greeting p ++ ([] ++ said),
                  Spoke-append s t v [] (r ++ got) (greeting p) ([] ++ said) wrote
                      (Spoke-append t u v r got [] said read spoke),
                  (m, got, said, ap (λ x. x ++ got) is, refl, offered, method),
                ))
                (select_method-Ensures r u two)))
