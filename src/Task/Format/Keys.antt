-- ===== src/Task/Format/Keys.antt =====
-- A construct is given the format of its own body: what the keys of the map are good for.
use xkomp.Prelude.{
  ℕ, ◌≡◌, refl, subst, arith, Bool, true, false, Bool-cases, inl, inr, Option, none, some, List, [],
  ◌∷◌, ◌==◌, ==_iff, ok,
}
use xkomp.Prelude.{ok-injective}
use xkomp.Task.Format.{
  Formats, Format, Ident, JitDesc, Kmp, find_format, has_ir, format_key, location, loc_format,
  create_format, create_from, get_or_create_at, get_or_create_key, get_or_create,
}

-- The address of the IR in a format.
abbrev pub raw_of : Format → Option ℕ
raw_of f = elim f.source [ none ↦ none | some s ↦ some s.raw ]

module _ (X : Formats) where
  open X use {Table, create, get, get-create, get-create_old}

  -- The format under `id` is there, and belongs to the IR at `key` if there is IR at `key`.
  abbrev pub Belongs : (ℕ → Bool) → Table → ℕ → ℕ → Type 0
  Belongs is_ir t key id =
      (f : Format) × (get t id ≡ some f) × (is_ir key ≡ true → raw_of f ≡ some key)

  abbrev pub AllBelong : (ℕ → Bool) → Table → List (ℕ × ℕ) → Type 0
  AllBelong is_ir t [] = Unit {0}
  AllBelong is_ir t ((key, id) ∷ rest) = Belongs is_ir t key id × AllBelong is_ir t rest

  -- The invariant of the map, for the addresses at which the compiler placed IR.
  pub record Inv (is_ir : ℕ → Bool) (s : Kmp X) : Type 0 where
    pub template : Format
    pub has_template : get s.table s.host ≡ some template
    pub belong : AllBelong is_ir s.table s.per_loc

  -- The addresses in a construct are what `is_ir` says: IR where it is forwarded, and a location
  -- elsewhere.
  abbrev pub Placed : (ℕ → Bool) → Option Ident → Option JitDesc → Type 0
  Placed is_ir loc none = (l : Ident) → loc ≡ some l → is_ir l.address ≡ false
  Placed is_ir loc (some d) =
      (has_ir (some d) ≡ true → is_ir d.ir ≡ true)
      × ((l : Ident) → loc ≡ some l → is_ir l.address ≡ false)

  Belongs-create :
      (is_ir : ℕ → Bool) (t : Table) (f : Format) (key id : ℕ)
      → Belongs is_ir t key id
      → Belongs is_ir (create t f).0 key id
  Belongs-create is_ir t f key id (g, found, own) = (g, get-create_old t f g id found, own)

  AllBelong-create :
      (is_ir : ℕ → Bool) (t : Table) (f : Format) (m : List (ℕ × ℕ))
      → AllBelong is_ir t m
      → AllBelong is_ir (create t f).0 m
  AllBelong-create is_ir t f [] h = tt
  AllBelong-create is_ir t f ((key, id) ∷ m) h =
      (Belongs-create is_ir t f key id h.0, AllBelong-create is_ir t f m h.1)

  find_format-Belongs :
      (is_ir : ℕ → Bool) (t : Table) (m : List (ℕ × ℕ)) (key id : ℕ)
      → AllBelong is_ir t m
      → find_format m key ≡ some id
      → Belongs is_ir t key id
  unfolding find_format
  find_format-Belongs is_ir t [] key id h e = cc
  find_format-Belongs is_ir t ((k, i) ∷ m) key id h e = elim (Bool-cases (k == key)) [
    | inl same ↦
        subst (λ j. Belongs is_ir t key j) {x = i} {y = id} (ground arith)
          (subst (λ j. Belongs is_ir t j i) ((==_iff k key).0 same) h.0)
    | inr other ↦ find_format-Belongs is_ir t m key id h.1 (ground arith)
  ]

  loc_format-raw :
      (is_ir : ℕ → Bool) (template : Format) (loc : Option Ident) (jit_desc : Option JitDesc)
      (scatter key : ℕ)
      → Placed is_ir loc jit_desc
      → format_key loc jit_desc ≡ some key
      → is_ir key ≡ true
      → raw_of (loc_format template loc jit_desc scatter) ≡ some key
  unfolding loc_format format_key location
  loc_format-raw is_ir template none none scatter key p e h = cc
  loc_format-raw is_ir template (some l) none scatter key p e h =
      let not_ir = p l refl in ground arith
  loc_format-raw is_ir template none (some d) scatter key p e h = ground arith
  loc_format-raw is_ir template (some l) (some d) scatter key p e h =
      let not_ir = p.1 l refl in ground arith

  from-again :
      (s : Kmp X) (key : ℕ) (format : Format → Format) (t : Option Format) (r : Kmp X × ℕ)
      → create_from X s key format t ≡ ok r
      → find_format r.0.per_loc key ≡ some r.1
  unfolding create_from create_format find_format
  from-again s key format none r h = cc
  from-again s key format (some f) r h =
      subst (λ q. find_format q.0.per_loc key ≡ some q.1) (ok-injective h)
        (rw ((==_iff key key).1 refl))

  at-again :
      (s : Kmp X) (key : ℕ) (format : Format → Format) (i : Option ℕ) (r : Kmp X × ℕ)
      → find_format s.per_loc key ≡ i
      → get_or_create_at X s key format i ≡ ok r
      → find_format r.0.per_loc key ≡ some r.1
  unfolding get_or_create_at
  at-again s key format none r e h = from-again s key format (get s.table s.host) r h
  at-again s key format (some id) r e h =
      subst (λ q. find_format q.0.per_loc key ≡ some q.1) (ok-injective h) e

  key-again :
      (s : Kmp X) (format format' : Format → Format) (k : Option ℕ) (r : Kmp X × ℕ)
      → get_or_create_key X s format k ≡ ok r
      → get_or_create_key X r.0 format' k ≡ ok r
  unfolding get_or_create_key get_or_create_at
  key-again s format format' none r h = subst (λ q. ok (q.0, q.0.host) ≡ ok q) (ok-injective h) refl
  key-again s format format' (some key) r h =
      rw (at-again s key format (find_format s.per_loc key) r refl h)

  -- What a call that returns leaves: the invariant, and the format of the key under the id.
  abbrev Kept : (ℕ → Bool) → ℕ → Kmp X × ℕ → Type 0
  Kept is_ir key r = Inv is_ir r.0 × Belongs is_ir r.0.table key r.1

  create_format-Kept :
      (is_ir : ℕ → Bool) (s : Kmp X) (key : ℕ) (f : Format)
      → Inv is_ir s
      → (is_ir key ≡ true → raw_of f ≡ some key)
      → Kept is_ir key (create_format X s key f)
  unfolding create_format
  create_format-Kept is_ir s key f v own =
      let own_format : Belongs is_ir (create s.table f).0 key (create s.table f).1 =
        (f, get-create s.table f, own) in
      (
        record {
          template = v.template;
          has_template = get-create_old s.table f v.template s.host v.has_template;
          belong = (own_format, AllBelong-create is_ir s.table f s.per_loc v.belong);
        },
        own_format,
      )

  module _ (is_ir : ℕ → Bool) (s : Kmp X) (v : Inv is_ir s) (key : ℕ) (format : Format → Format)
      (own : (f : Format) → is_ir key ≡ true → raw_of (format f) ≡ some key) where
    create_from-Kept :
        (t : Option Format) (r : Kmp X × ℕ) → create_from X s key format t ≡ ok r → Kept is_ir key r
    unfolding create_from
    create_from-Kept none r h = cc
    create_from-Kept (some f) r h =
        subst (Kept is_ir key) (ok-injective h)
          (create_format-Kept is_ir s key (format f) v (own f))

    at-Kept :
        (i : Option ℕ) (r : Kmp X × ℕ)
        → find_format s.per_loc key ≡ i
        → get_or_create_at X s key format i ≡ ok r
        → Kept is_ir key r
    unfolding get_or_create_at
    at-Kept none r e h = create_from-Kept (get s.table s.host) r h
    at-Kept (some id) r e h =
        subst (Kept is_ir key) (ok-injective h)
          (v, find_format-Belongs is_ir s.table s.per_loc key id v.belong e)

  key-Kept :
      (is_ir : ℕ → Bool) (s : Kmp X) (format : Format → Format) (k : Option ℕ) (r : Kmp X × ℕ)
      → Inv is_ir s
      → ((key : ℕ) → k ≡ some key → (f : Format) → is_ir key ≡ true → raw_of (format f) ≡ some key)
      → get_or_create_key X s format k ≡ ok r
      → Inv is_ir r.0 × ((key : ℕ) → k ≡ some key → Belongs is_ir r.0.table key r.1)
  unfolding get_or_create_key
  key-Kept is_ir s format none r v own h =
      (subst (λ q. Inv is_ir q.0) (ok-injective h) v, λ key e. cc)
  key-Kept is_ir s format (some k) r v own h =
      let (v', b) = at-Kept is_ir s v k format (own k refl) (find_format s.per_loc k) r refl h in
      (v', λ key e. let same : k ≡ key = cc in subst (λ j. Belongs is_ir r.0.table j r.1) same b)

  -- Every call that returns keeps the invariant: the format under each key is there, and where the
  -- key is the address of IR it is the format of that IR.
  pub get_or_create-Inv :
      (is_ir : ℕ → Bool) (s : Kmp X) (loc : Option Ident) (jit_desc : Option JitDesc) (scatter : ℕ)
      (r : Kmp X × ℕ)
      → Inv is_ir s
      → Placed is_ir loc jit_desc
      → get_or_create X s loc jit_desc scatter ≡ ok r
      → Inv is_ir r.0
        × ((key : ℕ) → format_key loc jit_desc ≡ some key → Belongs is_ir r.0.table key r.1)
  unfolding get_or_create
  get_or_create-Inv is_ir s loc jit_desc scatter r v p h =
      key-Kept is_ir s (λ f. loc_format f loc jit_desc scatter) (format_key loc jit_desc) r v
        (λ key e f. loc_format-raw is_ir f loc jit_desc scatter key p e) h

  -- A construct that forwards IR is given a format with that very IR, whatever was created before
  -- it for other constructs.
  pub get_or_create_own_ir :
      (is_ir : ℕ → Bool) (s : Kmp X) (loc : Option Ident) (d : JitDesc) (scatter : ℕ)
      (r : Kmp X × ℕ)
      → Inv is_ir s
      → Placed is_ir loc (some d)
      → has_ir (some d) ≡ true
      → get_or_create X s loc (some d) scatter ≡ ok r
      → (f : Format) × (get r.0.table r.1 ≡ some f) × (raw_of f ≡ some d.ir)
  unfolding format_key
  get_or_create_own_ir is_ir s loc d scatter r v p i h =
      let (_, belongs) = get_or_create-Inv is_ir s loc (some d) scatter r v p h in
      let (f, found, own) = belongs d.ir (rw i) in (f, found, own (p.0 i))

  -- A second call for the same construct returns the same id and changes nothing.
  pub get_or_create_again :
      (s : Kmp X) (loc : Option Ident) (jit_desc : Option JitDesc) (scatter scatter' : ℕ)
      (r : Kmp X × ℕ)
      → get_or_create X s loc jit_desc scatter ≡ ok r
      → get_or_create X r.0 loc jit_desc scatter' ≡ ok r
  unfolding get_or_create
  get_or_create_again s loc jit_desc scatter scatter' r h =
      key-again s (λ f. loc_format f loc jit_desc scatter) (λ f. loc_format f loc jit_desc scatter')
        (format_key loc jit_desc) r h
