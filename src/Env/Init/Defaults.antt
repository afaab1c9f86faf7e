-- ===== src/Env/Init/Defaults.antt =====
-- The environment where the variables of regions are not set, or are set to nothing.
use Prim.Native.String.{String, [] as eos}
use xkomp.Prelude.{
  ℕ, ◌≡◌, refl, sym, ap, ◌∙◌, arith, min, Option, none, some, ◌⊎◌, inl, inr, ok, >>=-eq-ok,
  ok-injective,
}
use xkomp.Prelude.Int.{pos}
use xkomp.Team.Places.{core, compact, parse_places, parse_proc_bind, parse_places-places_name}
use xkomp.Team.Region.{requested_nthreads}
use xkomp.Env.{PassTable, taskgraph_opt, env_init_parse}
use xkomp.Env.Init.{EnvVars, env_init, region_env, int_max, atoi}

-- A variable that is not set, or has an empty value.
abbrev pub Unset : Option String → Type 0
Unset o = (o ≡ none) ⊎ (o ≡ some eos)

env_init_parse-Unset {ℓ} :
    {T : Type ℓ} (convert : String → T) (default : T) (o : Option String)
    → Unset o
    → env_init_parse convert default o ≡ default
unfolding env_init_parse
env_init_parse-Unset convert default o (inl e) = rw e refl
env_init_parse-Unset convert default o (inr e) = rw e refl

close_compact : parse_proc_bind (some "close") ≡ compact
unfolding parse_proc_bind
close_compact = refl

requested_default :
    (v : EnvVars) (n : ℕ)
    → v.num_threads ≡ pos 0
    → v.thread_limit ≡ int_max
    → requested_nthreads (region_env v) n ≡ min n 2147483647
unfolding requested_nthreads
requested_default v n z l = rw (z, l) (ground arith)

-- Where the variables of regions are not set or empty, an environment that is accepted binds
-- threads close on cores, and a region asks for the number of threads of its clause, at most the
-- largest `int`.
pub env_init-Unset :
    (X : PassTable) (getenv : String → Option String) (v : EnvVars) (n : ℕ)
    → Unset (getenv "OMP_NUM_THREADS")
    → Unset (getenv "OMP_THREAD_LIMIT")
    → Unset (getenv "OMP_PLACES")
    → Unset (getenv "OMP_PROC_BIND")
    → env_init X getenv ≡ ok v
    → (requested_nthreads (region_env v) n ≡ min n 2147483647)
      × (parse_places (region_env v).places ≡ core)
      × (parse_proc_bind (region_env v).proc_bind ≡ compact)
      × (taskgraph_opt X (getenv "OMP_TASKGRAPH_OPT") ≡ ok v.taskgraph_opt)
unfolding env_init
env_init-Unset X getenv v n un ul up ub h =
    let (passes, e, whole) = >>=-eq-ok (taskgraph_opt X (getenv "OMP_TASKGRAPH_OPT")) _ h in
    let same = ok-injective whole in
    let unset_threads = env_init_parse-Unset atoi (pos 0) (getenv "OMP_NUM_THREADS") un in
    let unset_limit = env_init_parse-Unset atoi int_max (getenv "OMP_THREAD_LIMIT") ul in
    let unset_places = env_init_parse-Unset (λ (s : String). s) "cores" (getenv "OMP_PLACES") up in
    let unset_bind = env_init_parse-Unset (λ (s : String). s) "close" (getenv "OMP_PROC_BIND") ub in
    (
      requested_default v n (sym (ap (λ (w : EnvVars). w.num_threads) same) ∙ unset_threads)
          (sym (ap (λ (w : EnvVars). w.thread_limit) same) ∙ unset_limit),
      ap (λ t. parse_places (some t)) (sym (ap (λ (w : EnvVars). w.places) same) ∙ unset_places)
          ∙ parse_places-places_name core,
      ap (λ t. parse_proc_bind (some t)) (sym (ap (λ (w : EnvVars). w.proc_bind) same) ∙ unset_bind)
          ∙ close_compact,
      e ∙ ap (λ (w : EnvVars). ok w.taskgraph_opt) same,
    )
