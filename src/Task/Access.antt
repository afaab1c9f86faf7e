-- ===== src/Task/Access.antt =====
-- The dependences that the compiler sends (`kmp_depend_info_t` and `kmp_access_info_t` of
-- include/xkomp/kmp.h) and the accesses of an XKRT task that they are translated to.
pub mod DependSlots
pub mod ClauseSlots
use xkomp.Prelude.{
  ℕ, zero, suc, ◌+◌, Bool, true, false, ◌||◌, Option, none, some, List, [], ◌∷◌, set, ◌==◌,
  if◌then◌else◌, Outcome, ok, fatal_if, ◌>>=◌, ◌>>◌,
}

-- The bits R, W and V of `access_mode_t`.
pub record Mode : Type 0 where
  pub r : Bool
  pub w : Bool
  pub v : Bool

pub data Concurrency : Type 0 where
  sequential concurrent commutative : Concurrency

-- What an access is about: nothing, an address, or `n` items of a size from an address on.
pub data Region : Type 0 where
  inert : Region
  handle : ℕ → Region
  segment : ℕ → ℕ → ℕ → Region

-- The scope is ACCESS_SCOPE_NONUNIFIED in every access that the program makes.
pub record Access : Type 0 where
  pub region : Region
  pub mode : Mode
  pub concurrency : Concurrency

-- A slot of the array inside a task: no access has been constructed there, or this one.
abbrev pub Slot : Type 0
Slot = Option Access

pub record DependFlags : Type 0 where
  pub input : Bool  -- `in`
  pub output : Bool  -- `out`
  pub mtx : Bool
  pub inoutset : Bool  -- `set`
  pub all : Bool

-- The length is not read.
pub record Depend : Type 0 where
  pub base_addr : ℕ
  pub flags : DependFlags

pub record ClauseFlags : Type 0 where
  pub read : Bool
  pub write : Bool
  pub storage : Bool
  pub nostorage : Bool
  pub noncoherent : Bool
  pub concurrentwrite : Bool

pub record Clause : Type 0 where
  pub base_addr : ℕ
  pub len : ℕ
  pub flags : ClauseFlags

-- The two variables that the body of each loop builds up.
pub record Draft : Type 0 where
  pub mode : Mode
  pub concurrency : Concurrency

abbrev pub reads : Draft → Draft
reads d = record d { mode = record d.mode { r = true } }

abbrev pub writes : Draft → Concurrency → Draft
writes d c = record { mode = record d.mode { w = true }; concurrency = c }

unfoldable pub depend_draft : DependFlags → Draft
depend_draft f =
    let d : Draft = record {
      mode = record { r = false; w = false; v = true };
      concurrency = sequential;
    } in
    let d_in = if f.input then record (reads d) { concurrency = sequential } else d in
    let d_out = if f.output then writes d_in sequential else d_in in
    let d_mtx = if f.mtx then writes d_out commutative else d_out in
    if f.inoutset then writes d_mtx concurrent else d_mtx

-- The body of the loop for one dependence that has an address.
unfoldable pub depend_access : Depend → Outcome Access
unfolding depend_draft
depend_access d = do
  let draft = depend_draft d.flags
  fatal_if d.flags.all
  ok (record { region = handle d.base_addr; mode = draft.mode; concurrency = draft.concurrency })

-- `__kmp_omp_task_deps_to_xkomp_accesses(task, accesses + at, dep_list, ndeps)`.
unfoldable pub deps_to_accesses : List Slot → ℕ → List Depend → Outcome (List Slot)
deps_to_accesses slots at [] = ok slots
deps_to_accesses slots at (d ∷ ds) = do
  slots' ←
      if d.base_addr == 0 then ok slots else (do a ← depend_access d; ok (set slots at (some a)))
  deps_to_accesses slots' (at + 1) ds

-- A storage access is a write with no coherency; the flags in the caller's list are changed.
unfoldable pub storage_flags : ClauseFlags → ClauseFlags
storage_flags f = if f.storage then record f { write = true; noncoherent = true } else f

unfoldable pub clause_draft : ClauseFlags → Draft
clause_draft f =
    let d : Draft = record {
      mode = record { r = false; w = false; v = false };
      concurrency = sequential;
    } in
    let d_read = if f.read then reads d else d in
    let d_write =
      if f.write || f.concurrentwrite
      then writes d_read (if f.concurrentwrite then concurrent else d_read.concurrency)
      else d_read in
    if f.noncoherent then record d_write { mode = record d_write.mode { v = true } } else d_write

unfoldable pub clause_access : Clause → Outcome (Access × Clause)
unfolding storage_flags clause_draft
clause_access c = do
  let flags = storage_flags c.flags
  let draft = clause_draft flags
  fatal_if flags.nostorage
  ok (
    record {
      region = segment c.base_addr c.len 1;
      mode = draft.mode;
      concurrency = draft.concurrency;
    },
    record c { flags = flags },
  )

-- `__kmp_omp_task_acs_to_xkomp_accesses(task, accesses + at, acs_list, nacs)`: the slots, and the
-- list as the call leaves it.
unfoldable pub acs_to_accesses : List Slot → ℕ → List Clause → Outcome (List Slot × List Clause)
acs_to_accesses slots at [] = ok (slots, [])
acs_to_accesses slots at (c ∷ cs) = do
  (slots', c') ←
      if c.base_addr == 0
      then ok (slots, c)
      else (do (a, c') ← clause_access c; ok (set slots at (some a), c'))
  (slots'', cs') ← acs_to_accesses slots' (at + 1) cs
  ok (slots'', c' ∷ cs')

abbrev pub inert_access : Access
inert_access = record {
  region = inert;
  mode = record { r = false; w = false; v = true };
  concurrency = sequential;
}

-- `task_pad_accesses(task, accesses, from, from + n)`.
unfoldable pub pad_accesses : List Slot → ℕ → ℕ → List Slot
pad_accesses slots from zero = slots
pad_accesses slots from (suc n) = pad_accesses (set slots from (some inert_access)) (from + 1) n
