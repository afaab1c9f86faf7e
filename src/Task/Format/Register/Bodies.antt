-- ===== src/Task/Format/Register/Bodies.antt =====
-- Every construct of the program is given a format that runs the body of tasks.
use xkomp.Prelude.{
  ℕ, ◌≡◌, refl, subst, arith, Bool-cases, inl, inr, Option, none, some, Option-cases, List, [], ◌∷◌,
  ◌==◌, Returns, Returns->>=, Returns-map,
}
use xkomp.Task.Format.{
  Formats, Format, Kmp, body_omp_task, body_omp_task_target, find_format, format_key, loc_format,
  create_format, create_from, get_or_create_at, get_or_create_key, get_or_create,
}
use xkomp.Task.Format.Register.{
  Construct, task_template, memcpy_template, register_formats_kmp, formats_of,
}

-- A format that runs tasks.
abbrev pub RunsTasks : Format → Type 0
RunsTasks f = (f.host_body ≡ body_omp_task) × (f.target_body ≡ body_omp_task_target)

module _ (X : Formats) where
  open X use {Table, create, get, get-create, get-create_old}

  abbrev pub Names : Table → ℕ → Type 0
  Names t id = (f : Format) × (get t id ≡ some f) × RunsTasks f

  abbrev pub AllName : Table → List ℕ → Type 0
  AllName t [] = Unit {0}
  AllName t (id ∷ ids) = Names t id × AllName t ids

  abbrev AllEntries : Table → List (ℕ × ℕ) → Type 0
  AllEntries t [] = Unit {0}
  AllEntries t ((key, id) ∷ m) = Names t id × AllEntries t m

  -- The template and every format of a construct run tasks.
  abbrev pub Registered : Kmp X → Type 0
  Registered s = Names s.table s.host × AllEntries s.table s.per_loc

  -- The older formats stay.
  abbrev pub Grows : Table → Table → Type 0
  Grows t t' = (id : ℕ) (f : Format) → get t id ≡ some f → get t' id ≡ some f

  pub Names-Grows : (t t' : Table) (id : ℕ) → Grows t t' → Names t id → Names t' id
  Names-Grows t t' id g (f, found, runs) = (f, g id f found, runs)

  AllEntries-Grows :
      (t t' : Table) (m : List (ℕ × ℕ)) → Grows t t' → AllEntries t m → AllEntries t' m
  AllEntries-Grows t t' [] g h = tt
  AllEntries-Grows t t' ((key, id) ∷ m) g h =
      (Names-Grows t t' id g h.0, AllEntries-Grows t t' m g h.1)

  find_format-Names :
      (t : Table) (m : List (ℕ × ℕ)) (key id : ℕ)
      → AllEntries t m
      → find_format m key ≡ some id
      → Names t id
  unfolding find_format
  find_format-Names t [] key id h e = cc
  find_format-Names t ((k, i) ∷ m) key id h e = elim (Bool-cases (k == key)) [
    | inl same ↦ subst (Names t) {x = i} {y = id} (ground arith) h.0
    | inr other ↦ find_format-Names t m key id h.1 (ground arith)
  ]

  -- What a call leaves: it returns a format that runs tasks.
  abbrev pub Given : Kmp X → Kmp X × ℕ → Type 0
  Given s r = Registered r.0 × Names r.0.table r.1 × Grows s.table r.0.table

  create_format-Given :
      (s : Kmp X) (key : ℕ) (f : Format)
      → RunsTasks f
      → Registered s
      → Given s (create_format X s key f)
  unfolding create_format
  create_format-Given s key f runs h =
      let g : Grows s.table (create s.table f).0 = λ id k e. get-create_old s.table f k id e in
      let new : Names (create s.table f).0 (create s.table f).1 = (f, get-create s.table f, runs) in
      (
        (Names-Grows s.table _ s.host g h.0, (new, AllEntries-Grows s.table _ s.per_loc g h.1)),
        new,
        g,
      )

  create_from-Given :
      (s : Kmp X) (key : ℕ) (format : Format → Format)
      → ((f : Format) → RunsTasks f → RunsTasks (format f))
      → Registered s
      → Returns (Given s) (create_from X s key format (get s.table s.host))
  unfolding create_from
  create_from-Given s key format keeps h =
      let (f, found, runs) = h.0 in rw found (create_format-Given s key (format f) (keeps f runs) h)

  get_or_create_key-Given :
      (s : Kmp X) (format : Format → Format) (key : Option ℕ)
      → ((f : Format) → RunsTasks f → RunsTasks (format f))
      → Registered s
      → Returns (Given s) (get_or_create_key X s format key)
  unfolding get_or_create_key get_or_create_at
  get_or_create_key-Given s format none keeps h = (h, h.0, λ id f e. e)
  get_or_create_key-Given s format (some key) keeps h =
      elim (Option-cases (find_format s.per_loc key)) [
        | inl absent ↦ rw absent (create_from-Given s key format keeps h)
        | inr (id, found) ↦
            rw found (h, find_format-Names s.table s.per_loc key id h.1 found, λ id f e. e)
      ]

  pub get_or_create-Given :
      (s : Kmp X) (c : Construct)
      → Registered s
      → Returns (Given s) (get_or_create X s c.loc c.jit_desc c.scatter)
  unfolding get_or_create loc_format
  get_or_create-Given s c h =
      get_or_create_key-Given s (λ template. loc_format template c.loc c.jit_desc c.scatter)
        (format_key c.loc c.jit_desc) (λ f runs. runs) h

  abbrev AllGiven : Kmp X → Kmp X × List ℕ → Type 0
  AllGiven s r = Registered r.0 × AllName r.0.table r.1 × Grows s.table r.0.table

  formats_of-Given :
      (s : Kmp X) (cs : List Construct) → Registered s → Returns (AllGiven s) (formats_of X s cs)
  unfolding formats_of
  formats_of-Given s [] h = (h, tt, λ id f e. e)
  formats_of-Given s (c ∷ cs) h =
      Returns->>= (AllGiven s) (get_or_create X s c.loc c.jit_desc c.scatter) _
        (get_or_create-Given s c h)
        (λ (s', id) given.
          Returns->>= (AllGiven s) (formats_of X s' cs) _ (formats_of-Given s' cs given.0)
            (λ (s'', ids) rest. (
              rest.0,
              (Names-Grows s'.table s''.table id rest.2 given.1, rest.1),
              λ k f e. rest.2 k f (given.2 k f e),
            )))

  pub register_formats_kmp-Registered : (t : Table) → Registered (register_formats_kmp X t).0
  unfolding register_formats_kmp task_template
  register_formats_kmp-Registered t =
      let first = create t task_template in
      (
        (
          task_template,
          get-create_old first.0 memcpy_template task_template first.1 (get-create t task_template),
          (refl, refl),
        ),
        tt,
      )

  -- From the registration of the formats on, over any table, every construct is given a format, and
  -- each of these is there in the end and runs the body of tasks, on the host and on every other
  -- target; the format of copies is there as well.
  pub registered_lem :
      (t : Table) (cs : List Construct)
      → Returns
          (λ r.
            AllName r.0.table r.1
            × (get r.0.table (register_formats_kmp X t).1 ≡ some memcpy_template))
          (formats_of X (register_formats_kmp X t).0 cs)
  unfolding register_formats_kmp task_template memcpy_template
  registered_lem t cs =
      let first = create t task_template in
      let second = create first.0 memcpy_template in
      let s : Kmp X = record { table = second.0; host = first.1; per_loc = [] } in
      let host : get second.0 first.1 ≡ some task_template =
        get-create_old first.0 memcpy_template task_template first.1 (get-create t task_template) in
      Returns-map (AllGiven s)
        (λ r. AllName r.0.table r.1 × (get r.0.table second.1 ≡ some memcpy_template))
        (λ r given.
          (given.1, given.2 second.1 memcpy_template (get-create first.0 memcpy_template)))
        (formats_of X s cs) (formats_of-Given s cs ((task_template, host, (refl, refl)), tt))
