-- ===== src/Cookie/Jar/Runs.antt =====
-- Sequences of calls of the jar of crates/chromulate-cookie/src/jar.rs, from `Jar::new` on.
use chromulate.Prelude.{Option, none, some, List, [], ◌∷◌, ◌≡◌, ◌⊎◌, inl, inr, refl, arith, Any}
use chromulate.Prelude.Time.{Instant}
use chromulate.Prelude.Text.{Text, text_comparable}
use chromulate.Prelude.Headers.{HeaderMaps}
use chromulate.Prelude.Assoc.{lookup}
use chromulate.Cache.Date.{Platform}
use chromulate.Cookie.Domain.{Suffixes}
use chromulate.Cookie.Parsing.{Request}
use chromulate.Cookie.Bucket.{identity_comparable}
use chromulate.Cookie.Jar.{JarLimits}
use chromulate.Cookie.Jar.Counts.{IsValid}
use chromulate.Cookie.Jar.Limits.{IsWithin, store-IsWithin, import-IsWithin}
use chromulate.Cookie.Jar.Upkeep.{store-EndsValid}
use chromulate.Cookie.Jar.Storing.{Jar, store}
use chromulate.Cookie.Jar.Serving.{CookieContext, cookies_for}
use chromulate.Cookie.Jar.Serving.Accessed.{cookies_for-IsValid, cookies_for-IsWithin}
use chromulate.Cookie.Jar.Snapshot.{CookieRecord, Import, finished, panicked, import}
use chromulate.Cookie.Jar.Restoring.{Overflows}

-- `Jar::with_clock_and_limits`.
abbrev pub new : Jar
new = (record { sites = []; total = 0 }, record { creation = 0; access = 0 })

pub data Operation : Type 0 where
  serve : Option Request → CookieContext → Operation
  keep : Option Request → List Text → Operation
  restore : Instant → List CookieRecord → Operation

module _ (ps : Suffixes) (p : Platform) (hm : HeaderMaps) (from_str : Text → Option Text)
    (limits : JarLimits) where
  unfoldable pub step : Operation → Jar → Option Import
  unfolding cookies_for store import
  step (serve origin context) jar = some (finished (cookies_for ps from_str origin context jar).1)
  step (keep origin headers) jar = elim (store ps p hm limits origin headers jar) [
    | none ↦ none
    | some jar' ↦ some (finished jar')
  ]
  step (restore now records) jar = import ps p limits now records jar

  -- A call that panics leaves the jar to the next one, which recovers the lock.
  unfoldable pub run : List Operation → Jar → Option Jar
  unfolding step
  run [] jar = some jar
  run (op ∷ ops) jar = elim (step op jar) [
    | none ↦ none
    | some ended ↦ elim ended [ finished jar' ↦ run ops jar' | panicked jar' ↦ run ops jar' ]
  ]

moved : {A B C : Type 0} → (A → B) → C ⊎ A → C ⊎ B
moved f (inl c) = inl c
moved f (inr a) = inr (f a)

regrouped : {A B C : Type 0} → (A ⊎ B) ⊎ C → A ⊎ (B ⊎ C)
regrouped (inl (inl a)) = inl a
regrouped (inl (inr b)) = inr (inl b)
regrouped (inr c) = inr (inr c)

without_bottom : {A : Type 0} → ⊥ ⊎ A → A
without_bottom (inl b) = absurd b
without_bottom (inr a) = a

module _ (ps : Suffixes) (p : Platform) (hm : HeaderMaps) (from_str : Text → Option Text)
    (limits : JarLimits) where
  -- The call is an `import` that a record makes panic.
  abbrev pub Panics : Operation → Type 0
  Panics (serve origin context) = ⊥
  Panics (keep origin headers) = ⊥
  Panics (restore now records) = Any (Overflows p) records

  -- The sequence ends, in a valid jar, which is within its limits unless a call may have panicked.
  abbrev pub EndsWithin : Type 0 → Option Jar → Type 0
  EndsWithin Broken r =
      (jar : Jar) × (r ≡ some jar) × IsValid jar.0 × (IsWithin limits jar.0 ⊎ Broken)

  -- One call: what `run` goes on with.
  abbrev Continues : Type 0 → Option Import → Type 0
  Continues Broken r =
      ((jar : Jar) × (r ≡ some (finished jar)) × IsValid jar.0 × (IsWithin limits jar.0 ⊎ Broken))
      ⊎ ((jar : Jar) × (r ≡ some (panicked jar)) × IsValid jar.0 × Broken)

  step-Continues :
      (op : Operation) (jar : Jar) (Broken : Type 0)
      → IsValid jar.0
      → IsWithin limits jar.0 ⊎ Broken
      → Continues (Broken ⊎ Panics op) (step ps p hm from_str limits op jar)
  unfolding step
  step-Continues (serve origin context) jar Broken v w = inl (
    (cookies_for ps from_str origin context jar).1,
    refl,
    cookies_for-IsValid ps from_str origin context jar v,
    elim w [
      | inl h ↦ inl (cookies_for-IsWithin ps from_str limits origin context jar h)
      | inr b ↦ inr (inl b)
    ],
  )
  step-Continues (keep origin headers) jar Broken v w =
      let (jar', ends, v') = store-EndsValid ps p hm limits origin headers jar v in
      inl (
        jar',
        rw (ends, step) refl,
        v',
        elim w [
          | inl h ↦ inl (store-IsWithin ps p hm limits origin headers jar jar' v h ends)
          | inr b ↦ inr (inl b)
        ],
      )
  step-Continues (restore now records) jar Broken v w =
      elim (import-IsWithin ps p limits now records jar v) [
        | inl (jar', ends, v', h, fits) ↦ inl (jar', ends, v', inl h)
        | inr (jar', ends, v', o) ↦ inr (jar', ends, v', inr o)
      ]

  run-EndsWithin :
      (ops : List Operation) (jar : Jar) (Broken : Type 0)
      → IsValid jar.0
      → IsWithin limits jar.0 ⊎ Broken
      → EndsWithin (Broken ⊎ Any Panics ops) (run ps p hm from_str limits ops jar)
  unfolding run
  run-EndsWithin [] jar Broken v w = (jar, refl, v, moved (λ b. inl b) w)
  run-EndsWithin (op ∷ ops) jar Broken v w = elim (step-Continues op jar Broken v w) [
    | inl (mid, ends, v', w') ↦
        let (jar', ends', v'', w'') = run-EndsWithin ops mid (Broken ⊎ Panics op) v' w' in
        (jar', rw (ends, run) ends', v'', moved regrouped w'')
    | inr (mid, ends, v', b) ↦
        let (jar', ends', v'', w'') = run-EndsWithin ops mid (Broken ⊎ Panics op) v' (inr b) in
        (jar', rw (ends, run) ends', v'', moved regrouped w'')
  ]

  new-IsWithin : IsWithin limits new.0
  unfolding lookup
  new-IsWithin = record { per_domain = λ site. omega arith; total = omega arith }

  new-IsValid : IsValid new.0
  new-IsValid = record { indexed = tt; distinct = tt; total = refl }

  -- No sequence of `cookies_for`, `store` and `import` on a new jar reads a position out of range,
  -- whatever the requests, headers, records and clock readings, and also where an `import` panics
  -- and the next call recovers the lock. After it every bucket's index fits its entries, and the
  -- total counts all entries; and each site has at most `per_domain` cookies and the jar at most
  -- `total`, unless some `import` was given a record whose `expires` the platform's clock cannot
  -- represent.
  pub run-new-EndsWithin :
      (ops : List Operation) → EndsWithin (Any Panics ops) (run ps p hm from_str limits ops new)
  run-new-EndsWithin ops =
      let (jar, ends, v, w) = run-EndsWithin ops new ⊥ new-IsValid (inl new-IsWithin) in
      (jar, ends, v, moved without_bottom w)
