-- ===== src/Api/Threads.antt =====
-- The number of threads that src/api.cc promises against the one that a region asks for.
use xkomp.Prelude.{ℕ, ◌<◌, ◌^◌, ◌≡◌, arith}
use xkomp.Prelude.Int.{ℤ, pos, to_u32}
use xkomp.Team.Region.{Env, requested_nthreads}
use xkomp.Api.{get_max_threads}

-- Where OMP_NUM_THREADS is positive and the limit on threads is not negative, a region with no
-- clause asks for as many threads as omp_get_max_threads returns.
pub requested-get_max_threads :
    (cores : ℤ) (env : Env) (n limit : ℕ)
    → env.num_threads ≡ pos n
    → env.thread_limit ≡ pos limit
    → 0 < n
    → n < 2 ^ 31
    → limit < 2 ^ 31
    → requested_nthreads env 0 ≡ to_u32 (get_max_threads cores env)
unfolding requested_nthreads get_max_threads
requested-get_max_threads cores env n limit e l some_ small small_limit = rw (e, l) (ground arith)
