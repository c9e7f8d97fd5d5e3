-- ===== src/Cookie/Path.antt =====
-- crates/chromulate-cookie/src/path.rs: the default path of a cookie, and which paths it covers.
use chromulate.Prelude.{
  ℕ, suc, Bool, true, false, not, ◌||◌, Option, none, some, [], ◌∷◌, ◌++◌, ◌≡◌, ◌↔◌, ◌⊎◌, inl, inr,
  refl, ap, sym, ◌∙◌, arith, if◌then◌else◌, is_some, ◌==◌, Option-cases, Bool-cases, nat_beq,
  length, take, get_elem?,
}
use chromulate.Prelude.Text.{
  Text, ascii, text_beq_iff, text_comparable, strip_prefix, strip_prefix-append,
  append-strip_prefix, strip_suffix,
}
use mathlib.Core.List.{append-nil}
use chromulate.Cookie.Domain.{ends_with}

unfoldable pub starts_with : Text → Text → Bool
starts_with prefix s = is_some (strip_prefix prefix s)

-- `rfind` of a byte.
unfoldable pub rfind : ℕ → Text → Option ℕ
rfind byte [] = none
rfind byte (c ∷ s) = elim (rfind byte s) [
  | some i ↦ some (suc i)
  | none ↦ if nat_beq c byte then some 0 else none
]

unfoldable pub default_path : Text → Text
unfolding starts_with
default_path request_path =
    if not (starts_with (ascii "/") request_path)
    then ascii "/"
    else (elim (rfind b'/' request_path) [
      | none ↦ ascii "/"
      | some last_slash ↦ if nat_beq last_slash 0 then ascii "/" else take last_slash request_path
    ])

abbrev is_byte : ℕ → Option ℕ → Bool
is_byte byte none = false
is_byte byte (some c) = nat_beq c byte

-- Whether a text has a byte at a position.
abbrev pub has_byte_at : ℕ → ℕ → Text → Bool
has_byte_at i byte s = is_byte byte (get_elem? s i)

unfoldable pub path_matches : Text → Text → Bool
unfolding starts_with ends_with
path_matches request_path cookie_path =
    if request_path == cookie_path
    then true
    else if not (starts_with cookie_path request_path)
    then false
    else ends_with (ascii "/") cookie_path || has_byte_at (length cookie_path) b'/' request_path

-- What is behind a path that covers another: nothing, or anything where the path ends in a slash,
-- or what starts with a slash.
abbrev pub IsDeeper : Text → Text → Type 0
IsDeeper path rest =
    (rest ≡ []) ⊎ ((ends_with (ascii "/") path ≡ true) ⊎ ((tail : Text) × (rest ≡ b'/' ∷ tail)))

get_elem?-append : (p s : Text) → get_elem? (p ++ s) (length p) ≡ get_elem? s 0
get_elem?-append [] s = refl
get_elem?-append (c ∷ p) s = get_elem?-append p s

deeper : (path rest : Text) → has_byte_at 0 b'/' rest ≡ true → (tail : Text) × (rest ≡ b'/' ∷ tail)
deeper path [] h = absurd (ground (arith, h))
deeper path (c ∷ rest) h = (rest, ap (λ d. d ∷ rest) (ground (arith, h)))

byte_behind :
    (path rest request : Text)
    → request ≡ path ++ rest
    → has_byte_at (length path) b'/' request ≡ has_byte_at 0 b'/' rest
byte_behind path rest request e =
    ap (λ t. has_byte_at (length path) b'/' t) e ∙ ap (is_byte b'/') (get_elem?-append path rest)

covering :
    (request path : Text)
    → path_matches request path ≡ true
    → (rest : Text) × (request ≡ path ++ rest) × IsDeeper path rest
unfolding path_matches
covering request path h = elim (Bool-cases (request == path)) [
  | inl e ↦ ([], (text_beq_iff request path).0 e ∙ sym (append-nil path), inl refl)
  | inr e ↦ elim (Option-cases (strip_prefix path request)) [
    | inl n ↦ absurd (ground (arith, h, e, n))
    | inr (rest, n) ↦
        let cut = append-strip_prefix path request rest n in
        elim (Bool-cases (ends_with (ascii "/") path)) [
          | inl k ↦ (rest, cut, inr (inl k))
          | inr k ↦ (
            rest,
            cut,
            inr (
                inr (
                  deeper path rest
                    (sym (byte_behind path rest request cut) ∙ ground (arith, h, e, n, k)))),
          )
        ]
  ]
]

covered :
    (request path rest : Text)
    → request ≡ path ++ rest
    → IsDeeper path rest
    → path_matches request path ≡ true
unfolding path_matches
covered request path rest e (inl nothing) =
    ground
      (arith, (text_beq_iff request path).1 (e ∙ ap (λ t. path ++ t) nothing ∙ append-nil path))
covered request path rest e (inr (inl k)) =
    let found : strip_prefix path request ≡ some rest = rw e (strip_prefix-append path rest) in
    ground (arith, k, found)
covered request path rest e (inr (inr (tail, k))) =
    let found : strip_prefix path request ≡ some rest = rw e (strip_prefix-append path rest) in
    let slash : has_byte_at (length path) b'/' request ≡ true =
      byte_behind path rest request e ∙ rw k refl in
    ground (arith, found, slash)

-- A cookie's path covers a request's exactly when the request's is that path with something behind
-- it that starts a new segment: nothing, a slash, or anything if the cookie's ends in a slash.
pub path_matches-IsDeeper :
    (request path : Text)
    → (path_matches request path ≡ true)
      ↔ ((rest : Text) × (request ≡ path ++ rest) × IsDeeper path rest)
path_matches-IsDeeper request path =
    (covering request path, λ (rest, e, d). covered request path rest e d)

rfind_cut :
    (byte : ℕ) (s : Text) (i : ℕ)
    → rfind byte s ≡ some i
    → (rest : Text) × (s ≡ take i s ++ byte ∷ rest)
unfolding rfind
rfind_cut byte [] i h = absurd (ground (arith, h))
rfind_cut byte (c ∷ s) i h = elim (Option-cases (rfind byte s)) [
  | inl n ↦ elim (Bool-cases (nat_beq c byte)) [
    | inl e ↦
        let here : i ≡ 0 = ground (arith, h, n, e) in
        (s, rw here (ap (λ d. d ∷ s) (ground (arith, e))))
    | inr e ↦ absurd (ground (arith, h, n, e))
  ]
  | inr (j, n) ↦
      let there : i ≡ suc j = ground (arith, h, n) in
      let (rest, e) = rfind_cut byte s j n in (rest, rw there (ap (λ t. c ∷ t) e))
]

slash_ends : ends_with (ascii "/") (ascii "/") ≡ true
unfolding ends_with strip_suffix
slash_ends = refl

-- A cookie that was set without a path is sent back to the path that set it: the default path of
-- an absolute request path covers that request path.
pub path_matches-default_path :
    (request : Text)
    → starts_with (ascii "/") request ≡ true
    → path_matches request (default_path request) ≡ true
unfolding default_path starts_with
path_matches-default_path request h = elim (Option-cases (strip_prefix (ascii "/") request)) [
  | inl n ↦ absurd (ground (arith, h, n))
  | inr (rest, n) ↦
      let whole = append-strip_prefix (ascii "/") request rest n in
      let root : path_matches request (ascii "/") ≡ true =
        covered request (ascii "/") rest whole (inr (inl slash_ends)) in
      elim (Option-cases (rfind b'/' request)) [
        | inl k ↦ rw (n, k) root
        | inr (last, k) ↦ elim (Bool-cases (nat_beq last 0)) [
          | inl z ↦ rw (n, k, z) root
          | inr z ↦
              let (tail, e) = rfind_cut b'/' request last k in
              rw (n, k, z)
                (covered request (take last request) (b'/' ∷ tail) e (inr (inr (tail, refl))))
        ]
      ]
]
