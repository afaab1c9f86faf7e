-- ===== src/Env/Init.antt =====
-- `xkomp_env_init` of src/env.cc, and what a region reads of its result (src/xkomp/parallel.cc).
pub mod Defaults
use Prim.Native.String.{String, [] as eos, ◌∷◌ as ◌◁◌}
use Prim.Native.Char.{Char, code}
use xkomp.Prelude.{
  ℕ, zero, suc, ◌+◌, ◌-◌, ◌*◌, Bool, true, false, not, ◌||◌, ◌&&◌, Option, none, some, leb, ◌==◌,
  if◌then◌else◌, Outcome, ok, ◌>>=◌,
}
use xkomp.Prelude.Int.{ℤ, pos, sub_ℕ}
use xkomp.Team.Region.{Env}
use xkomp.Env.{Passes, PassTable, taskgraph_opt, env_init_parse}

-- The value of the leading digits after those read; `atoi` is defined on numbers that an `int`
-- holds.
abbrev is_digit : Char → Bool
is_digit c = leb 48 (code c) && leb (code c) 57

unfoldable pub digits : ℕ → String → ℕ
digits n eos = n
digits n (c ◁ s) = let rest = digits (n * 10 + (code c - 48)) s in if is_digit c then rest else n

unfoldable pub signed : String → ℤ
unfolding digits
signed eos = pos 0
signed (c ◁ s) =
    if code c == 45
    then sub_ℕ 0 (digits 0 s)
    else if code c == 43
    then pos (digits 0 s)
    else pos (digits 0 (c ◁ s))

unfoldable pub atoi : String → ℤ
unfolding signed
atoi eos = pos 0
atoi (c ◁ s) =
    let rest = atoi s in
    if (code c == 32) || (leb 9 (code c) && leb (code c) 13) then rest else signed (c ◁ s)

-- `*value`
unfoldable pub first_char : Char → String → Char
first_char default eos = default
first_char default (c ◁ s) = c

-- `xkomp_env_t`
pub record EnvVars : Type 0 where
  pub display_env : Char
  pub num_threads : ℤ
  pub thread_limit : ℤ
  pub places : String
  pub proc_bind : String
  pub taskgraph_opt : Passes

abbrev pub int_max : ℤ
int_max = pos 2147483647

module _ (X : PassTable) where
  -- What is displayed or reported of OMP_DISPLAY_ENV is left out.
  unfoldable pub env_init : (String → Option String) → Outcome EnvVars
  unfolding atoi first_char
  env_init getenv = do
    passes ← taskgraph_opt X (getenv "OMP_TASKGRAPH_OPT")
    ok (record {
      display_env = env_init_parse (first_char "f") "f" (getenv "OMP_DISPLAY_ENV");
      num_threads = env_init_parse atoi (pos 0) (getenv "OMP_NUM_THREADS");
      thread_limit = env_init_parse atoi int_max (getenv "OMP_THREAD_LIMIT");
      places = env_init_parse (λ s. s) "cores" (getenv "OMP_PLACES");
      proc_bind = env_init_parse (λ s. s) "close" (getenv "OMP_PROC_BIND");
      taskgraph_opt = passes;
    })

-- What `xkomp_parallel` reads of it.
abbrev pub region_env : EnvVars → Env
region_env v = record {
  num_threads = v.num_threads;
  thread_limit = v.thread_limit;
  places = some v.places;
  proc_bind = some v.proc_bind;
}
