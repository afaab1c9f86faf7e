-- ===== src/Examples/Forks.antt =====
-- The theorems on the compiler's regions (src/kmp/fork.cc) at a few arguments.
use xkomp.Prelude.{
  ℕ, ◌==◌, ◌≡◌, arith, Bool, true, none, some, [], ◌∷◌, replicate, ok, dies, fatal, if◌then◌else◌,
}
use xkomp.Prelude.Int.{ℤ, pos, to_i32}
use xkomp.Team.Region.{Env, Desc}
use xkomp.Fork.{
  Wargs, Routine, implicit_task_begin, microtask, team_barrier, implicit_task_end, invoke_generic,
  invoke_libffi, wrapper,
}
use xkomp.Fork.Microtask.{wrapper_small, invoke_large}

wrapper_small_example :
    (wrapper {V = ℕ} invoke_generic (record { argc = 2; args = 40 ∷ 50 ∷ [] })
      ≡ ok (
          implicit_task_begin
          ∷ microtask (some (40 ∷ 50 ∷ []))
          ∷ team_barrier
          ∷ implicit_task_end
          ∷ []))
    × (wrapper {V = ℕ} (invoke_libffi (λ n. true)) (record { argc = 2; args = 40 ∷ 50 ∷ [] })
        ≡ ok (
            implicit_task_begin
            ∷ microtask (some (40 ∷ 50 ∷ []))
            ∷ team_barrier
            ∷ implicit_task_end
            ∷ []))
wrapper_small_example = wrapper_small (λ n. true) (40 ∷ 50 ∷ []) (omega arith)

invoke_large_example :
    (invoke_generic {V = ℕ} 17 (replicate 17 5) ≡ dies fatal)
    × (invoke_libffi {V = ℕ} (λ n. true) 17 (replicate 17 5) ≡ ok (some (replicate 17 5)))
invoke_large_example = invoke_large (λ n. true) (replicate 17 5) (omega arith)

abbrev as_asked : Desc (Wargs ℕ) Routine → Bool × ℤ
as_asked d = (true, if d.nthreads == 0 then pos 6 else to_i32 d.nthreads)

abbrev unlimited : Env
unlimited = record {
  num_threads = pos 0;
  thread_limit = pos 2147483647;
  places = none;
  proc_bind = none;
}
