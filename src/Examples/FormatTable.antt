-- ===== src/Examples/FormatTable.antt =====
-- A table of formats, and the theorems on the formats of constructs (src/kmp/task.cc) over it.
use xkomp.Prelude.{
  ℕ, ◌==◌, ◌≤◌, ◌≡◌, refl, sym, ap, arith, ==_iff, Bool, true, false, Option, none, some, List, [],
  ◌∷◌, length, if◌then◌else◌, ok, Returns, ◌>>=◌, ◌&&◌,
}
use xkomp.Task.Format.{
  Formats, Format, Ident, JitDesc, Kmp, body_omp_task, body_omp_task_target, packed_buffer,
  get_or_create, get_or_create_key, get_or_create_at, create_from, create_format, find_format,
  loc_format, has_ir, format_key,
}
use xkomp.Task.Format.Keys.{Inv, Placed, raw_of, get_or_create_own_ir}
use xkomp.Task.Format.Register.{Construct}
use xkomp.Task.Format.Locked.{Spinlock, waiting, returned, interleave, moved_to, all_waiting}
use xkomp.Task.Format.Locked.Steps.{in_section}
use xkomp.Task.Format.Locked.Agreement.{SameGiven, interleave-SameGiven}
use xkomp.Task.Format.Locked.Solo.{interleave-get_or_create}

-- A list, the newest format first: a format's id is the number of those before it.
abbrev pub find : List Format → ℕ → Option Format
find [] id = none
find (f ∷ t) id = elim (find t id) [
  | some g ↦ some g
  | none ↦ if length t == id then some f else none
]

find-none : (t : List Format) (id : ℕ) → length t ≤ id → find t id ≡ none
find-none [] id h = refl
find-none (f ∷ t) id h =
    let other : (length t == id) ≡ false = ground arith in
    rw (find-none t id (omega (arith, h)), other)

find_at : (f : Format) (t : List Format) (id : ℕ) → length t ≡ id → find (f ∷ t) id ≡ some f
find_at f t id h = rw (find-none t id (omega arith), (==_iff (length t) id).1 h)

pub find_new : (f : Format) (t : List Format) → find (f ∷ t) (length t) ≡ some f
find_new f t = find_at f t (length t) refl

pub find_old :
    (t : List Format) (f g : Format) (id : ℕ) → find t id ≡ some g → find (f ∷ t) id ≡ some g
find_old t f g id h = rw h

abbrev pub listed : Formats
listed = record {
  Table = List Format;
  create = λ t f. (f ∷ t, length t);
  get = find;
  get-create = λ t f. find_new f t;
  get-create_old = find_old;
}

abbrev pub template : Format
template = record {
  host_body = body_omp_task;
  target_body = body_omp_task_target;
  suggest = 0;
  label = "omp-task";
  source = none;
}

abbrev pub start : Kmp listed
start = record { table = template ∷ []; host = 0; per_loc = [] }

-- IR stands at 500, and at no other address.
abbrev is_ir : ℕ → Bool
is_ir a = a == 500

start-Inv : Inv listed is_ir start
start-Inv = record { template = template; has_template = refl; belong = tt }

abbrev pub loc : Ident
loc = record { address = 100; psource = some ";main.cc;main;3;1;;" }

abbrev jit : JitDesc
jit = record {
  ir = 500;
  ir_size = 64;
  externs = 0;
  externs_count = 0;
  params = 0;
  params_count = 0;
  proto = packed_buffer;
  entry_name = 0;
}

placed : Placed listed is_ir (some loc) (some jit)
placed = (
  λ h. refl,
  λ l e.
      let a : 100 ≡ l.address = ap (λ o. elim o [ none ↦ 0 | some i ↦ i.address ]) e in
      rw (← a) refl,
)

abbrev created : Kmp listed × ℕ
created = (
  record {
    table = loc_format template (some loc) (some jit) 0 ∷ template ∷ [];
    host = 0;
    per_loc = (500, 1) ∷ [];
  },
  1,
)

creates : get_or_create listed start (some loc) (some jit) 0 ≡ ok created
unfolding get_or_create get_or_create_key get_or_create_at create_from create_format find_format
    format_key has_ir
creates = refl

abbrev two_constructs : List Construct
two_constructs =
    record { loc = some loc; jit_desc = some jit; scatter = 0 }
    ∷ record { loc = some loc; jit_desc = none; scatter = 0 }
    ∷ []

jit-has_ir : has_ir (some jit) ≡ true
unfolding has_ir
jit-has_ir = refl

get_or_create_own_ir_example :
    (f : Format) × (find created.0.table 1 ≡ some f) × (raw_of f ≡ some 500)
get_or_create_own_ir_example =
    get_or_create_own_ir listed is_ir start (some loc) jit 0 created start-Inv placed jit-has_ir
      creates

-- A lock that is a flag.
abbrev take : Bool → Option Bool
take true = none
take false = some true

take_free : (l l' : Bool) → take l ≡ some l' → (l ≡ false) × (l' ≡ true)
take_free true l' h = cc
take_free false l' h = (refl, cc)

abbrev flag : Spinlock
flag = record {
  State = Bool;
  held = λ l. l;
  try_lock = take;
  unlock = λ l. false;
  try_lock-held = λ l h. rw h refl;
  held-try_lock = λ l l' h. (take_free l l' h).1;
  unlock-try_lock = λ l l' h. sym (take_free l l' h).0;
}

-- Every thread runs the same construct.
abbrev same_construct : ℕ → Construct
same_construct i = record { loc = some loc; jit_desc = some jit; scatter = 0 }

-- The second thread comes while the first one holds the lock, and is through after it.
abbrev both_through : List ℕ
both_through = 0 ∷ 0 ∷ 1 ∷ 0 ∷ 1 ∷ 0 ∷ 0 ∷ 1 ∷ 1 ∷ 1 ∷ 1 ∷ []

interleave-SameGiven_example :
    Returns
      (λ w.
        ((in_section (w.points 0) && in_section (w.points 1)) ≡ false)
        × SameGiven listed flag (w.points 0) (w.points 1))
      (interleave listed flag same_construct both_through (all_waiting listed flag start false))
interleave-SameGiven_example =
    interleave-SameGiven listed flag same_construct both_through start false 0 1 (template, refl)
      refl refl

interleave-get_or_create_example :
    interleave listed flag same_construct (0 ∷ 0 ∷ 0 ∷ 0 ∷ 0 ∷ []) (
      moved_to listed flag
        (all_waiting listed flag start false)
        0
        (record { kmp = start; per_loc_lock = false }, waiting))
    ≡ (get_or_create listed start (some loc) (some jit) 0 >>= λ r. ok (
        moved_to listed flag
          (all_waiting listed flag start false)
          0
          (record { kmp = r.0; per_loc_lock = false }, returned r.1)))
interleave-get_or_create_example =
    interleave-get_or_create listed flag same_construct (all_waiting listed flag start false) 0
      start false true refl
