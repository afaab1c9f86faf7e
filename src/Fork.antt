-- ===== src/Fork.antt =====
-- `# pragma omp parallel` as the compiler calls it: src/kmp/fork.cc, and the two ways of calling a
-- microtask with the arguments of the region, src/kmp/arch/generic.cc and src/kmp/arch/libffi.cc.
-- `V` stands for the pointers that the region's body is called with.
pub mod Microtask
pub mod Push
use xkomp.Prelude.{
  ℕ, zero, suc, ◌+◌, ◌-◌, Bool, true, false, Option, none, some, List, [], ◌∷◌, ◌++◌, length,
  get_elem?, leb, if◌then◌else◌, Outcome, ok, dies, fatal, undefined, check, ◌>>=◌, ◌>>◌,
}
use xkomp.Prelude.Int.{ℤ, pos, negsuc}
use xkomp.Team.Region.{Env, Desc, Entry, Event, parallel}

abbrev pub microtask_max_args : ℕ
microtask_max_args = 1024

-- `wargs_t`; the entries of `args` behind those that are given are not initialised.
pub record Wargs (V : Type 0) : Type 0 where
  pub argc : ℕ
  pub args : List V

-- The region's routine: every region of this entry point runs `fork_call_wrapper`.
pub data Routine : Type 0 where
  fork_call_wrapper : Routine

-- `p[i]` for each of the indices.
unfoldable pub reads {ℓ} : {V : Type ℓ} → List V → List ℕ → Outcome (List V)
reads p [] = ok []
reads p (i ∷ is) = elim (get_elem? p i) [
  | none ↦ dies undefined
  | some v ↦ (do vs ← reads p is; ok (v ∷ vs))
]

-- The cases of the switch, from 0 to 16: the indices that the call names.
unfoldable pub case_table : List (List ℕ)
case_table =
    ([])
    ∷ (0 ∷ [])
    ∷ (0 ∷ 1 ∷ [])
    ∷ (0 ∷ 1 ∷ 2 ∷ [])
    ∷ (0 ∷ 1 ∷ 2 ∷ 3 ∷ [])
    ∷ (0 ∷ 1 ∷ 2 ∷ 3 ∷ 4 ∷ [])
    ∷ (0 ∷ 1 ∷ 2 ∷ 3 ∷ 4 ∷ 5 ∷ [])
    ∷ (0 ∷ 1 ∷ 2 ∷ 3 ∷ 4 ∷ 5 ∷ 6 ∷ [])
    ∷ (0 ∷ 1 ∷ 2 ∷ 3 ∷ 4 ∷ 5 ∷ 6 ∷ 7 ∷ [])
    ∷ (0 ∷ 1 ∷ 2 ∷ 3 ∷ 4 ∷ 5 ∷ 6 ∷ 7 ∷ 8 ∷ [])
    ∷ (0 ∷ 1 ∷ 2 ∷ 3 ∷ 4 ∷ 5 ∷ 6 ∷ 7 ∷ 8 ∷ 9 ∷ [])
    ∷ (0 ∷ 1 ∷ 2 ∷ 3 ∷ 4 ∷ 5 ∷ 6 ∷ 7 ∷ 8 ∷ 9 ∷ 10 ∷ [])
    ∷ (0 ∷ 1 ∷ 2 ∷ 3 ∷ 4 ∷ 5 ∷ 6 ∷ 7 ∷ 8 ∷ 9 ∷ 10 ∷ 11 ∷ [])
    ∷ (0 ∷ 1 ∷ 2 ∷ 3 ∷ 4 ∷ 5 ∷ 6 ∷ 7 ∷ 8 ∷ 9 ∷ 10 ∷ 11 ∷ 12 ∷ [])
    ∷ (0 ∷ 1 ∷ 2 ∷ 3 ∷ 4 ∷ 5 ∷ 6 ∷ 7 ∷ 8 ∷ 9 ∷ 10 ∷ 11 ∷ 12 ∷ 13 ∷ [])
    ∷ (0 ∷ 1 ∷ 2 ∷ 3 ∷ 4 ∷ 5 ∷ 6 ∷ 7 ∷ 8 ∷ 9 ∷ 10 ∷ 11 ∷ 12 ∷ 13 ∷ 14 ∷ [])
    ∷ (0 ∷ 1 ∷ 2 ∷ 3 ∷ 4 ∷ 5 ∷ 6 ∷ 7 ∷ 8 ∷ 9 ∷ 10 ∷ 11 ∷ 12 ∷ 13 ∷ 14 ∷ 15 ∷ [])
    ∷ []

unfoldable pub case_indices : ℕ → Option (List ℕ)
unfolding case_table
case_indices argc = get_elem? case_table argc

-- `__kmp_invoke_microtask`: the arguments that the microtask is called with, behind the addresses
-- of the thread's two numbers; none where it is not called.
unfoldable pub invoke_generic {ℓ} : {V : Type ℓ} → ℕ → List V → Outcome (Option (List V))
unfolding reads case_indices
invoke_generic argc p = elim (case_indices argc) [
  | some is ↦ (do vs ← reads p is; ok (some vs))
  | none ↦ dies fatal
]

-- The loop that fills `vals` from index `i` on.
unfoldable pub indices_from : ℕ → ℕ → List ℕ
indices_from i zero = []
indices_from i (suc n) = i ∷ indices_from (i + 1) n

-- The same with libffi; `prepared` is whether `ffi_prep_cif` returns FFI_OK.
unfoldable pub invoke_libffi {ℓ} :
    {V : Type ℓ} → (ℕ → Bool) → ℕ → List V → Outcome (Option (List V))
unfolding reads case_indices indices_from
invoke_libffi prepared argc p = elim (case_indices argc) [
  | some is ↦ (do vs ← reads p is; ok (some vs))
  | none ↦
      if leb (microtask_max_args - 2) argc
      then dies fatal
      else if prepared (argc + 2)
      then (do vs ← reads p (indices_from 0 argc); ok (some vs))
      else ok none
]

-- What a thread of the team does.
pub data ThreadEvent (V : Type 0) : Type 0 where
  implicit_task_begin : ThreadEvent V
  microtask : Option (List V) → ThreadEvent V
  team_barrier : ThreadEvent V
  implicit_task_end : ThreadEvent V

-- `fork_call_wrapper`, for a way of calling a microtask; what that returns is not looked at.
unfoldable pub wrapper :
    {V : Type 0}
    → (ℕ → List V → Outcome (Option (List V)))
    → Wargs V
    → Outcome (List (ThreadEvent V))
wrapper invoke w = do
  called ← invoke w.argc w.args
  ok (implicit_task_begin ∷ microtask called ∷ team_barrier ∷ implicit_task_end ∷ [])

-- The loop over `va_arg`.
unfoldable pub va_args {ℓ} : {V : Type ℓ} → ℕ → List V → Outcome (List V)
va_args zero va = ok []
va_args (suc n) [] = dies undefined
va_args (suc n) (v ∷ va) = do vs ← va_args n va; ok (v ∷ vs)

unfoldable pub push_num_threads : ℤ → ℕ
push_num_threads (negsuc n) = 0
push_num_threads (pos n) = n

module _ {V : Type 0} (spawn : Desc (Wargs V) Routine → Bool × ℤ) (env : Env) where
  -- `__kmpc_fork_call`: `given` is whether `malloc` returns memory, and `pushed` is
  -- `pushed_num_threads` of the calling thread, before and after.
  unfoldable pub fork_call :
      Bool
      → Bool
      → List (Entry (Wargs V) Routine)
      → ℕ
      → ℕ
      → List V
      → Outcome (List (Entry (Wargs V) Routine) × List (Event (Wargs V) Routine) × ℕ)
  unfolding va_args
  fork_call given in_team teams pushed argc va = do
    check (leb argc microtask_max_args)
    check given
    vs ← va_args argc va
    (teams', events) ←
        parallel spawn env in_team teams pushed fork_call_wrapper
          (record { argc = argc; args = vs })
    ok (teams', events, 0)
