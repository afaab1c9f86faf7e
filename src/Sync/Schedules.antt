-- ===== src/Sync/Schedules.antt =====
-- The kinds of schedule of include/xkomp/kmp.h, and what src/kmp/for.cc makes of them.
use xkomp.Prelude.{ℕ, ◌≡◌, refl, Bool, true, false, if◌then◌else◌, ok, dies, assertion}
use xkomp.Prelude.Int.{ℤ}
use xkomp.Sync.{Bounds, for_static_init}

-- `sched_type`, without the bounds of its ranges and the name of its default; the kinds for
-- `distribute` stand under a macro that nothing defines.
pub data SchedType : Type 0 where
  static_chunked static_ dynamic_chunked guided_chunked runtime_ auto_ trapezoidal : SchedType
  static_greedy static_balanced guided_iterative_chunked guided_analytical_chunked : SchedType
  static_steal : SchedType
  ord_static_chunked ord_static ord_dynamic_chunked ord_guided_chunked ord_runtime : SchedType
  ord_auto ord_trapezoidal : SchedType
  nm_static_chunked nm_static nm_dynamic_chunked nm_guided_chunked nm_runtime nm_auto : SchedType
  nm_trapezoidal nm_static_greedy nm_static_balanced nm_guided_iterative_chunked : SchedType
  nm_guided_analytical_chunked nm_static_steal : SchedType
  nm_ord_static_chunked nm_ord_static nm_ord_dynamic_chunked nm_ord_guided_chunked : SchedType
  nm_ord_runtime nm_ord_auto nm_ord_trapezoidal : SchedType

unfoldable pub sched_number : SchedType → ℕ
sched_number static_chunked = 33
sched_number static_ = 34
sched_number dynamic_chunked = 35
sched_number guided_chunked = 36
sched_number runtime_ = 37
sched_number auto_ = 38
sched_number trapezoidal = 39
sched_number static_greedy = 40
sched_number static_balanced = 41
sched_number guided_iterative_chunked = 42
sched_number guided_analytical_chunked = 43
sched_number static_steal = 44
sched_number ord_static_chunked = 65
sched_number ord_static = 66
sched_number ord_dynamic_chunked = 67
sched_number ord_guided_chunked = 68
sched_number ord_runtime = 69
sched_number ord_auto = 70
sched_number ord_trapezoidal = 71
sched_number nm_static_chunked = 161
sched_number nm_static = 162
sched_number nm_dynamic_chunked = 163
sched_number nm_guided_chunked = 164
sched_number nm_runtime = 165
sched_number nm_auto = 166
sched_number nm_trapezoidal = 167
sched_number nm_static_greedy = 168
sched_number nm_static_balanced = 169
sched_number nm_guided_iterative_chunked = 170
sched_number nm_guided_analytical_chunked = 171
sched_number nm_static_steal = 172
sched_number nm_ord_static_chunked = 193
sched_number nm_ord_static = 194
sched_number nm_ord_dynamic_chunked = 195
sched_number nm_ord_guided_chunked = 196
sched_number nm_ord_runtime = 197
sched_number nm_ord_auto = 198
sched_number nm_ord_trapezoidal = 199

abbrev pub is_static : SchedType → Bool
is_static static_ = true
is_static _ = false

-- A loop with the unspecialized static schedule gets the bounds that XKRT computes; one with any
-- other kind of schedule, also one of the other static ones, fails the assertion.
pub for_static_init_kinds :
    (thread_bounds : ℤ → Bounds → Bounds) (kind : SchedType) (incr : ℤ) (b : Bounds)
    → for_static_init thread_bounds (sched_number kind) incr b
      ≡ (if is_static kind then ok (thread_bounds incr b) else dies assertion)
unfolding for_static_init sched_number
for_static_init_kinds thread_bounds static_ incr b = refl
for_static_init_kinds thread_bounds _ incr b = refl
