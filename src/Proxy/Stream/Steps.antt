-- ===== src/Proxy/Stream/Steps.antt =====
-- Steps on a stream of crates/chromulate-proxy/src/socks5.rs: what passes on it where a chain of
-- them succeeds.
use chromulate.Prelude.{
  ℕ, zero, suc, true, [], ◌∷◌, ◌++◌, ◌≡◌, inl, inr, refl, sym, ap, ◌∙◌, arith, leb, length, take,
  Option-cases, Bool-cases,
}
use chromulate.Prelude.Text.{Text}
use chromulate.Proxy.Stream.{
  ProxyUrl, Host, Stream, Step, Outcome, and_then, drop, byte_at, proxy_error, write_all,
  read_exact,
}

-- Between two states of a stream the proxy said `got`, and `said` was sent to it.
pub record Spoke (s s' : Stream) (got said : Text) : Type 0 where
  pub got_is : s.incoming ≡ got ++ s'.incoming
  pub said_is : s'.sent ≡ s.sent ++ said

append_assoc : (a b c : Text) → (a ++ b) ++ c ≡ a ++ (b ++ c)
append_assoc [] b c = refl
append_assoc (x ∷ a) b c = ap (λ t. x ∷ t) (append_assoc a b c)

pub append_nil : (a : Text) → a ++ [] ≡ a
append_nil [] = refl
append_nil (x ∷ a) = ap (λ t. x ∷ t) (append_nil a)

pub Spoke-refl : (s : Stream) → Spoke s s [] []
Spoke-refl s = record { got_is = refl; said_is = sym (append_nil s.sent) }

pub Spoke-append :
    (s t u : Stream) (got got' said said' : Text)
    → Spoke s t got said
    → Spoke t u got' said'
    → Spoke s u (got ++ got') (said ++ said')
Spoke-append s t u got got' said said' a b = record {
  got_is = a.got_is ∙ ap (λ x. got ++ x) b.got_is ∙ sym (append_assoc got got' u.incoming);
  said_is = b.said_is ∙ ap (λ x. x ++ said') a.said_is ∙ append_assoc s.sent said said';
}

-- Where the step succeeds, `R` holds of what it returns and of the stream after it.
abbrev pub Ensures : {A : Type 0} → (A → Stream → Type 0) → Outcome A × Stream → Type 0
Ensures R (r, s) = elim r [ inl e ↦ Unit | inr a ↦ R a s ]

pub and_then-Ensures :
    {A B : Type 0} (R : A → Stream → Type 0) (Q : B → Stream → Type 0) (m : Step A) (k : A → Step B)
    (s : Stream)
    → Ensures R (m s)
    → ((a : A) (t : Stream) → R a t → Ensures Q (k a t))
    → Ensures Q (and_then m k s)
and_then-Ensures {A} {B} R Q m k s first next = from (m s) first
  where
    from :
        (r : Outcome A × Stream)
        → Ensures R r
        → Ensures Q (elim r.0 [ inl e ↦ (inl e, r.1) | inr a ↦ k a r.1 ])
    from (inl e, t) g = tt
    from (inr a, t) g = next a t g

pub Ensures-imp :
    {A : Type 0} (R Q : A → Stream → Type 0) (r : Outcome A × Stream)
    → ((a : A) (t : Stream) → R a t → Q a t)
    → Ensures R r
    → Ensures Q r
Ensures-imp R Q (inl e, t) f g = tt
Ensures-imp R Q (inr a, t) f g = f a t g

-- A step that only looks at what was read.
pub pure-Ensures :
    {A : Type 0} (R : A → Stream → Type 0) (r : Outcome A) (s : Stream)
    → ((a : A) → r ≡ inr a → R a s)
    → Ensures R (r, s)
pure-Ensures R (inl e) s f = tt
pure-Ensures R (inr a) s f = f a refl

take-drop : (n : ℕ) (s : Text) → s ≡ take n s ++ drop n s
take-drop zero s = refl
take-drop (suc n) [] = refl
take-drop (suc n) (c ∷ s) = ap (λ t. c ∷ t) (take-drop n s)

length-take : (n : ℕ) (s : Text) → leb n (length s) ≡ true → length (take n s) ≡ n
length-take zero s h = refl
length-take (suc n) [] h = absurd (ground (arith, h))
length-take (suc n) (c ∷ s) h = omega (arith, length-take n s (ground (arith, h)))

pub two_bytes : (s : Text) → length s ≡ 2 → s ≡ byte_at 0 s ∷ byte_at 1 s ∷ []
two_bytes [] h = absurd (omega (arith, h))
two_bytes (a ∷ []) h = absurd (omega (arith, h))
two_bytes (a ∷ b ∷ []) h = refl
two_bytes (a ∷ b ∷ c ∷ s) h = absurd (omega (arith, h))

pub four_bytes :
    (s : Text) → length s ≡ 4 → s ≡ byte_at 0 s ∷ byte_at 1 s ∷ byte_at 2 s ∷ byte_at 3 s ∷ []
four_bytes [] h = absurd (omega (arith, h))
four_bytes (a ∷ []) h = absurd (omega (arith, h))
four_bytes (a ∷ b ∷ []) h = absurd (omega (arith, h))
four_bytes (a ∷ b ∷ c ∷ []) h = absurd (omega (arith, h))
four_bytes (a ∷ b ∷ c ∷ d ∷ []) h = refl
four_bytes (a ∷ b ∷ c ∷ d ∷ e ∷ s) h = absurd (omega (arith, h))

module _ (h : Host) (p : ProxyUrl) where
  pub write_all-Ensures :
      (buf : Text) (s : Stream) → Ensures (λ _ t. Spoke s t [] buf) (write_all h p buf s)
  unfolding write_all proxy_error
  write_all-Ensures buf s = elim (Option-cases (h.write_error s.sent)) [
    | inr (m, n) ↦ rw (n, write_all) tt
    | inl n ↦ rw (n, write_all) (record { got_is = refl; said_is = refl })
  ]

  pub read_exact-Ensures :
      (n : ℕ) (s : Stream)
      → Ensures (λ buf t. Spoke s t buf [] × (length buf ≡ n)) (read_exact h p n s)
  unfolding read_exact proxy_error
  read_exact-Ensures n s = elim (Bool-cases (leb n (length s.incoming))) [
    | inr e ↦ rw (e, read_exact) tt
    | inl e ↦
        rw (e, read_exact)
          (
            record { got_is = take-drop n s.incoming; said_is = sym (append_nil s.sent) },
            length-take n s.incoming e,
          )
  ]
