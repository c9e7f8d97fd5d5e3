-- ===== src/Cache/Directive/Forbidden.antt =====
-- When the directives of directive.rs forbid storing.
use chromulate.Prelude.{
  ℕ, Bool, true, false, ◌||◌, Option, none, some, List, [], ◌∷◌, ◌++◌, map, ◌≡◌, ◌↔◌, ◌⊎◌, inl, inr,
  refl, sym, ap, ◌∙◌, arith, ◌==◌, not, ◌&&◌, nat_beq, Any, Option-cases, Bool-cases,
}
use chromulate.Prelude.Text.{
  Text, ascii, text_comparable, text_beq_iff, trim, is_nil, split, split_once, lower,
  to_ascii_lowercase,
}
use chromulate.Prelude.Headers.{HeaderMaps}
use chromulate.Cache.Directive.{
  CacheControl, no_directives, name_and_argument, set_directive, absorb_token, absorb_tokens,
  absorb, absorb_values, of,
}

abbrev pub holds_byte : ℕ → Text → Bool
holds_byte b [] = false
holds_byte b (c ∷ s) = nat_beq c b || holds_byte b s

-- What stands before the first `=`, behind white space and in any case.
abbrev pub NamesNoStore : Text → Type 0
NamesNoStore name = to_ascii_lowercase name ≡ ascii "no-store"

-- A token is `no-store` alone, or `no-store`, an `=` and any argument.
abbrev pub IsNoStore : Text → Type 0
IsNoStore token =
    NamesNoStore token
    ⊎ ((name : Text) × (argument : Text) × (holds_byte b'=' name ≡ false)
        × (token ≡ name ++ b'=' ∷ argument)
        × NamesNoStore (trim name))

split_once-cut :
    (sep : ℕ) (s a b : Text)
    → split_once sep s ≡ some (a, b)
    → (holds_byte sep a ≡ false) × (s ≡ a ++ sep ∷ b)
unfolding split_once
split_once-cut sep [] a b h = absurd (ground (arith, h))
split_once-cut sep (c ∷ s) a b h = elim (Bool-cases (nat_beq c sep)) [
  | inl e ↦
      let here : [] ≡ a = ground (arith, h, e) in
      let rest : s ≡ b = ground (arith, h, e) in
      let same : c ≡ sep = ground (arith, e) in rw (← here) (refl, rw (same, rest) refl)
  | inr e ↦ elim (Option-cases (split_once sep s)) [
    | inl n ↦ absurd (ground (arith, h, e, n))
    | inr ((x, y), n) ↦
        let (free, cut) = split_once-cut sep s x y n in
        let front : c ∷ x ≡ a = ground (arith, h, e, n) in
        let back : y ≡ b = ground (arith, h, e, n) in
        rw (← front) (rw e free, ap (λ t. c ∷ t) (cut ∙ ap (λ t. x ++ sep ∷ t) back))
  ]
]

split_once-append :
    (sep : ℕ) (a b : Text) → holds_byte sep a ≡ false → split_once sep (a ++ sep ∷ b) ≡ some (a, b)
unfolding split_once
split_once-append sep [] b h = ground arith
split_once-append sep (c ∷ a) b h = elim (Bool-cases (nat_beq c sep)) [
  | inl e ↦ absurd (ground (arith, h, e))
  | inr e ↦ rw (e, split_once-append sep a b (ground (arith, h, e))) refl
]

holds_byte-lower : (a b : Text) → holds_byte b'=' (map lower (a ++ b'=' ∷ b)) ≡ true
unfolding lower
holds_byte-lower [] b = refl
holds_byte-lower (c ∷ a) b = ground (arith, holds_byte-lower a b)

no_equals : holds_byte b'=' (ascii "no-store") ≡ false
no_equals = refl

-- A token that reads `no-store` has no `=`.
split_once-NamesNoStore : (t : Text) → NamesNoStore t → split_once b'=' t ≡ none
unfolding to_ascii_lowercase
split_once-NamesNoStore t h = elim (Option-cases (split_once b'=' t)) [
  | inl n ↦ n
  | inr ((a, b), n) ↦
      let cut = (split_once-cut b'=' t a b n).1 in
      let has : holds_byte b'=' (map lower t) ≡ true =
        ap (λ x. holds_byte b'=' (map lower x)) cut ∙ holds_byte-lower a b in
      absurd (ground (arith, sym has ∙ ap (holds_byte b'=') h ∙ no_equals))
]

name-alone : (t : Text) → split_once b'=' t ≡ none → (name_and_argument t).0 ≡ t
unfolding name_and_argument
name-alone t n = rw (n, name_and_argument) refl

name-cut : (t a b : Text) → split_once b'=' t ≡ some (a, b) → (name_and_argument t).0 ≡ trim a
unfolding name_and_argument
name-cut t a b n = rw (n, name_and_argument) refl

-- The test that the code makes of a trimmed token.
is_no_store_token : Text → Bool
is_no_store_token t =
    not (is_nil t) && to_ascii_lowercase (name_and_argument t).0 == ascii "no-store"

is_no_store : Text → Bool
unfolding is_no_store_token
is_no_store raw = is_no_store_token (trim raw)

is_no_store_token-IsNoStore : (t : Text) → is_no_store_token t ≡ true → IsNoStore t
unfolding is_no_store_token
is_no_store_token-IsNoStore t h = elim (Bool-cases (is_nil t)) [
  | inl z ↦ absurd (ground (arith, h, z))
  | inr z ↦ elim (Option-cases (split_once b'=' t)) [
    | inl n ↦
        let same : (to_ascii_lowercase t == ascii "no-store") ≡ true =
          rw (z, name-alone t n) at h in
        inl ((text_beq_iff (to_ascii_lowercase t) (ascii "no-store")).0 same)
    | inr ((a, b), n) ↦
        let (free, cut) = split_once-cut b'=' t a b n in
        let same : (to_ascii_lowercase (trim a) == ascii "no-store") ≡ true =
          rw (z, name-cut t a b n) at h in
        inr
          (a, b, free, cut, (text_beq_iff (to_ascii_lowercase (trim a)) (ascii "no-store")).0 same)
  ]
]

not_nil : (a b : Text) → is_nil (a ++ b'=' ∷ b) ≡ false
unfolding is_nil
not_nil [] b = refl
not_nil (c ∷ a) b = refl

NamesNoStore-not_nil : (t : Text) → NamesNoStore t → is_nil t ≡ false
unfolding is_nil to_ascii_lowercase
NamesNoStore-not_nil [] h = absurd (ground (arith, h))
NamesNoStore-not_nil (c ∷ t) h = refl

IsNoStore-is_no_store_token : (t : Text) → IsNoStore t → is_no_store_token t ≡ true
unfolding is_no_store_token
IsNoStore-is_no_store_token t (inl h) =
    rw (NamesNoStore-not_nil t h, name-alone t (split_once-NamesNoStore t h), h) refl
IsNoStore-is_no_store_token t (inr (a, b, free, cut, h)) =
    rw (cut, not_nil a b, name-cut (a ++ b'=' ∷ b) a b (split_once-append b'=' a b free), h) refl

any_no_store : List Text → Bool
any_no_store [] = false
any_no_store (token ∷ tokens) = is_no_store token || any_no_store tokens

set_directive_no_store :
    (name : Text) (argument : Option Text) (given : CacheControl)
    → (set_directive name argument given).no_store ≡ (given.no_store || name == ascii "no-store")
unfolding set_directive
set_directive_no_store name argument given = ground arith

absorb_token_no_store :
    (raw : Text) (given : CacheControl)
    → (absorb_token raw given).no_store ≡ (given.no_store || is_no_store raw)
unfolding absorb_token is_no_store is_no_store_token
absorb_token_no_store raw given =
    let token : Text = trim raw in
    let name : Text = to_ascii_lowercase (name_and_argument token).0 in
    ground (arith, set_directive_no_store name (name_and_argument token).1 given)

absorb_tokens_no_store :
    (tokens : List Text) (given : CacheControl)
    → (absorb_tokens tokens given).no_store ≡ (given.no_store || any_no_store tokens)
unfolding absorb_tokens any_no_store
absorb_tokens_no_store [] given = ground arith
absorb_tokens_no_store (token ∷ tokens) given = ground (
  arith,
  absorb_tokens_no_store tokens (absorb_token token given),
  absorb_token_no_store token given,
)

value_no_store :
    (value : Option Text) (given : CacheControl)
    → let next : CacheControl = (elim value [ none ↦ given | some text ↦ absorb text given ]) in
      next.no_store ≡ (
        given.no_store
        || (elim value [ none ↦ false | some text ↦ any_no_store (split b',' text) ]))
unfolding absorb
value_no_store none given = ground arith
value_no_store (some text) given = absorb_tokens_no_store (split b',' text) given

or_true : (a b : Bool) → b ≡ true → (a || b) ≡ true
or_true a b h = ground arith

any_no_store-IsNoStore :
    (tokens : List Text) → (any_no_store tokens ≡ true) ↔ Any (λ raw. IsNoStore (trim raw)) tokens
unfolding any_no_store is_no_store
any_no_store-IsNoStore [] = (λ h. absurd (ground (arith, h)), λ h. absurd h)
any_no_store-IsNoStore (raw ∷ tokens) = (
  λ h. elim (Bool-cases (is_no_store_token (trim raw))) [
    | inl e ↦ inl (is_no_store_token-IsNoStore (trim raw) e)
    | inr e ↦ inr ((any_no_store-IsNoStore tokens).0 (rw e at h))
  ],
  λ h. elim h [
    | inl a ↦ rw (IsNoStore-is_no_store_token (trim raw) a) refl
    | inr rest ↦ or_true _ _ ((any_no_store-IsNoStore tokens).1 rest)
  ],
)

module _ (hm : HeaderMaps) where
  any_value : List Text → Bool
  any_value [] = false
  any_value (v ∷ vs) =
      (elim (hm.to_str v) [ none ↦ false | some text ↦ any_no_store (split b',' text) ])
      || any_value vs

  absorb_values_no_store :
      (values : List Text) (given : CacheControl)
      → (absorb_values hm values given).no_store ≡ (given.no_store || any_value values)
  unfolding absorb_values any_value absorb
  absorb_values_no_store [] given = ground arith
  absorb_values_no_store (v ∷ vs) given =
      let next : CacheControl = (elim (hm.to_str v) [
        | none ↦ given
        | some text ↦ absorb text given
      ]) in
      ground (arith, absorb_values_no_store vs next, value_no_store (hm.to_str v) given)

  -- A value that is text and has a token between commas that is `no-store`.
  abbrev pub Forbids : Text → Type 0
  Forbids v =
      (text : Text) × (hm.to_str v ≡ some text)
      × Any (λ raw. IsNoStore (trim raw)) (split b',' text)

  any_value-Forbids : (vs : List Text) → (any_value vs ≡ true) ↔ Any Forbids vs
  unfolding any_value
  any_value-Forbids [] = (λ h. absurd (ground (arith, h)), λ h. absurd h)
  any_value-Forbids (v ∷ vs) = (
    λ h. elim (Option-cases (hm.to_str v)) [
      | inl n ↦ inr ((any_value-Forbids vs).0 (rw n at h))
      | inr (text, n) ↦ elim (Bool-cases (any_no_store (split b',' text))) [
        | inl e ↦ inl (text, n, (any_no_store-IsNoStore (split b',' text)).0 e)
        | inr e ↦ inr ((any_value-Forbids vs).0 (rw (n, e) at h))
      ]
    ],
    λ h. elim h [
      | inl (text, n, a) ↦ rw (n, (any_no_store-IsNoStore (split b',' text)).1 a) refl
      | inr rest ↦ or_true _ _ ((any_value-Forbids vs).1 rest)
    ],
  )

  -- The directives of a message forbid storing exactly when, in some `Cache-Control` value that is
  -- text, some token between commas is `no-store`, in any case, alone or before an `=` with any
  -- argument, wherever it stands among the others.
  pub of-Forbids :
      (headers : hm.Headers)
      → ((of hm headers).no_store ≡ true) ↔ Any Forbids (hm.get_all (ascii "cache-control") headers)
  unfolding of
  of-Forbids headers =
      let values : List Text = hm.get_all (ascii "cache-control") headers in
      let read : (absorb_values hm values no_directives).no_store ≡ any_value values =
        absorb_values_no_store values no_directives in
      (λ h. (any_value-Forbids values).0 (sym read ∙ h), λ h. read ∙ (any_value-Forbids values).1 h)
