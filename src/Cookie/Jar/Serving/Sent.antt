-- ===== src/Cookie/Jar/Serving/Sent.antt =====
-- Which cookies `cookies_for` of crates/chromulate-cookie/src/jar.rs sends with a request, in which
-- order, and the header that it makes.
use chromulate.Prelude.{true, Option, none, some, List, [], ◌∷◌, ◌≡◌, ◌⊎◌}
use mathlib.Core.List.{Perm}
use mathlib.Core.List.Perm
use chromulate.Prelude.Text.{Text, text_comparable}
use chromulate.Prelude.Assoc.{lookup}
use chromulate.Cookie.Bucket.{Entry, Bucket}
use chromulate.Cookie.Jar.Storing.{Jar}
use chromulate.Cookie.Jar.Serving.{is_representable, join, header_of}

-- Exactly the elements of a list that have a property, in its order.
abbrev pub Kept : (Entry → Type 0) → List Entry → List Entry → Type 0
Kept P [] kept = kept ≡ []
Kept P (e ∷ es) kept =
    (P e × ((rest : List Entry) × (kept ≡ e ∷ rest) × Kept P es rest))
    ⊎ ((¬ (P e)) × Kept P es kept)

-- The entries of the request's site.
abbrev pub entries_of : Text → Jar → List Entry
entries_of site jar = elim (lookup site jar.0.sites) [ none ↦ [] | some b ↦ b.entries ]

module _ (from_str : Text → Option Text) where
  -- What is sent for the cookies of a request: one header with them all, or where no header can
  -- hold that, one with those that a header can hold, if there are any.
  abbrev pub IsHeader : List Entry → Option Text → Type 0
  IsHeader [] out = out ≡ none
  IsHeader (e ∷ es) out =
      ((header : Text) × (from_str (join (e ∷ es)) ≡ some header) × (out ≡ some header))
      ⊎ ((from_str (join (e ∷ es)) ≡ none)
          × ((fit : List Entry) × Kept (λ f. is_representable f.cookie.name f.cookie.value ≡ true)
                (e ∷ es) fit
              × (out ≡ (elim fit [ [] ↦ none | f ∷ fs ↦ from_str (join (f ∷ fs)) ]))))

  -- The header of the matches, if there are any.
  header_if : List Entry → Option Text
  header_if [] = none
  header_if (e ∷ es) = header_of from_str (e ∷ es)
