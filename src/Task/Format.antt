-- ===== src/Task/Format.antt =====
-- `get_or_create_loc_format` of src/kmp/task.cc: one task format for each task construct. The
-- table of formats is XKRT's and a parameter; `per_loc` is the map of xkomp.h, its newest entry
-- first.

use Prim.Native.String.{String}
pub mod Keys
pub mod Locked
pub mod Register
use mathlib.Core.Option.{get_or}
use xkomp.Prelude.{
  ℕ, ◌≡◌, Outcome, ok, dies, undefined, Bool, true, false, ◌||◌, ◌&&◌, not, Option, none, some,
  List, [], ◌∷◌, ◌==◌, ltb, if◌then◌else◌,
}

-- The functions of a format, one for each target, by their names.
pub data Body : Type 0 where
  body_omp_task body_omp_task_target body_omp_target_memcpy_async : Body

pub data Proto : Type 0 where
  packed_buffer unpacked_params void_ptrptr other : Proto

-- `kmp_task_jit_desc_t`: what the compiler forwards of a task's body. Pointers are addresses, 0
-- where they are null.
pub record JitDesc : Type 0 where
  pub ir : ℕ
  pub ir_size : ℕ
  pub externs : ℕ
  pub externs_count : ℕ
  pub params : ℕ
  pub params_count : ℕ
  pub proto : Proto
  pub entry_name : ℕ

-- `ident_t`, with the address that it stands at.
pub record Ident : Type 0 where
  pub address : ℕ
  pub psource : Option String

-- The source of a format: LLVM-IR that the compiler owns, with its tables.
pub record Source : Type 0 where
  pub raw : ℕ
  pub size : ℕ
  pub symbol : ℕ
  pub externs : ℕ
  pub externs_count : ℕ
  pub proto : Proto
  pub params : ℕ
  pub param_count : ℕ

pub record Format : Type 0 where
  pub host_body : Body
  pub target_body : Body
  pub suggest : ℕ
  pub label : String
  pub source : Option Source

-- XKRT's table of formats. A new format gets an id of its own, under which it is found from then
-- on, and the older ids keep their formats.
pub record Formats : Type 1 where
  pub Table : Type 0
  pub create : Table → Format → Table × ℕ
  pub get : Table → ℕ → Option Format
  pub get-create : (t : Table) (f : Format) → get (create t f).0 (create t f).1 ≡ some f
  pub get-create_old :
      (t : Table) (f g : Format) (id : ℕ) → get t id ≡ some g → get (create t f).0 id ≡ some g

unfoldable pub find_format : List (ℕ × ℕ) → ℕ → Option ℕ
find_format [] key = none
find_format ((k, id) ∷ rest) key = if k == key then some id else find_format rest key

-- `ir != NULL && ir_size > 0` for the descriptor that may be null.
unfoldable pub has_ir : Option JitDesc → Bool
has_ir none = false
has_ir (some d) = not (d.ir == 0) && ltb 0 d.ir_size

unfoldable pub chosen : Proto → ℕ → Proto
chosen packed_buffer scatter = packed_buffer
chosen _ scatter = if scatter == 0 then void_ptrptr else unpacked_params

unfoldable pub source_proto : JitDesc → ℕ → Proto
unfolding chosen
source_proto d scatter = chosen d.proto scatter

unfoldable pub jit_source : JitDesc → ℕ → Source
unfolding source_proto
jit_source d scatter = record {
  raw = d.ir;
  size = d.ir_size;
  symbol = d.entry_name;
  externs = d.externs;
  externs_count = d.externs_count;
  proto = source_proto d scatter;
  params = d.params;
  param_count = d.params_count;
}

unfoldable pub format_label : Option Ident → String
format_label none = "omp-task"
format_label (some loc) = get_or loc.psource "omp-task"

unfoldable pub format_source : Option JitDesc → ℕ → Option Source
unfolding jit_source has_ir
format_source none scatter = none
format_source (some d) scatter = if has_ir (some d) then some (jit_source d scatter) else none

-- The functions and the suggestion come from the template, the rest from the construct.
unfoldable pub loc_format : Format → Option Ident → Option JitDesc → ℕ → Format
unfolding format_label format_source
loc_format template loc jit_desc scatter = record template {
  label = format_label loc;
  source = format_source jit_desc scatter;
}

unfoldable pub location : Option Ident → Option ℕ
location none = none
location (some l) = some l.address

-- The key of a construct: its IR, or else its location; none where there is neither.
unfoldable pub format_key : Option Ident → Option JitDesc → Option ℕ
format_key loc none = location loc
format_key loc (some d) = if has_ir (some d) then some d.ir else location loc

module _ (X : Formats) where
  open X use {Table, create, get}

  -- The fields of `formats.kmp` that the function uses; `host` is the template's id.
  pub record Kmp : Type 0 where
    pub table : Table
    pub host : ℕ
    pub per_loc : List (ℕ × ℕ)

  -- The branch that creates a format, from a template that is there.
  unfoldable pub create_format : Kmp → ℕ → Format → Kmp × ℕ
  create_format s key format =
      let (table', id) = create s.table format in
      (record s { table = table'; per_loc = (key, id) ∷ s.per_loc }, id)

  unfoldable pub create_from : Kmp → ℕ → (Format → Format) → Option Format → Outcome (Kmp × ℕ)
  create_from s key format none = dies undefined
  create_from s key format (some template) = ok (create_format s key (format template))

  unfoldable pub get_or_create_at : Kmp → ℕ → (Format → Format) → Option ℕ → Outcome (Kmp × ℕ)
  get_or_create_at s key format none = create_from s key format (get s.table s.host)
  get_or_create_at s key format (some id) = ok (s, id)

  unfoldable pub get_or_create_key : Kmp → (Format → Format) → Option ℕ → Outcome (Kmp × ℕ)
  get_or_create_key s format none = ok (s, s.host)
  get_or_create_key s format (some key) = get_or_create_at s key format (find_format s.per_loc key)

  unfoldable pub get_or_create : Kmp → Option Ident → Option JitDesc → ℕ → Outcome (Kmp × ℕ)
  get_or_create s loc jit_desc scatter =
      get_or_create_key s (λ template. loc_format template loc jit_desc scatter)
        (format_key loc jit_desc)
