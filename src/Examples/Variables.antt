-- ===== src/Examples/Variables.antt =====
-- The theorems on environment variables (src/env.cc) at a few values.
use Prim.Native.String.{String}
use Prim.Native.Char.{Char}
use text.Mathlib.Text.{◌==◌ as ◌≟◌}
use xkomp.Prelude.{◌≡◌, refl, none, some, inl, List, [], ◌∷◌, if◌then◌else◌, ok, dies, fatal}
use xkomp.Prelude.Int.{pos}
use xkomp.Team.Places.{core, compact, parse_places, parse_proc_bind}
use xkomp.Team.Region.{requested_nthreads}
use xkomp.Env.{PassTable, tokens, taskgraph_opt, default_passes, env_init_parse}
use xkomp.Env.Passes.{taskgraph_opt_lem}
use xkomp.Env.Init.{EnvVars, env_init, region_env, int_max}
use xkomp.Env.Init.Defaults.{env_init-Unset}

abbrev pub table : PassTable
table = record {
  from_str = λ s. if s ≟ "jit" then some 4 else if s ≟ "prog-fuse" then some 3 else none;
  reduce_node = 1;
  transitive_reduction = 2;
  sequence = 5;
  prog_fuse = 3;
  jit = 4;
}

abbrev two_words : List (String × Char)
two_words = ("jit", ",") ∷ ("none", "\n") ∷ []

two_tokens : tokens "jit,prog-fuse" ≡ "jit" ∷ "prog-fuse" ∷ []
unfolding tokens
two_tokens = refl

-- A fusion without a compilation.
taskgraph_opt_lem_example : taskgraph_opt table (some "prog-fuse") ≡ dies fatal
unfolding tokens
taskgraph_opt_lem_example = taskgraph_opt_lem table "prog-fuse"

abbrev pub read : EnvVars
read = record {
  display_env = "f";
  num_threads = pos 0;
  thread_limit = int_max;
  places = "cores";
  proc_bind = "close";
  taskgraph_opt = default_passes table;
}

reads_nothing : env_init table (λ _. none) ≡ ok read
unfolding env_init taskgraph_opt env_init_parse default_passes
reads_nothing = refl

env_init-Unset_example :
    (requested_nthreads (region_env read) 6 ≡ 6)
    × (parse_places (some "cores") ≡ core)
    × (parse_proc_bind (some "close") ≡ compact)
    × (taskgraph_opt table none ≡ ok (default_passes table))
env_init-Unset_example =
    env_init-Unset table (λ _. none) read 6 (inl refl) (inl refl) (inl refl) (inl refl)
      reads_nothing
