-- ===== src/Ompt/System/Teams.antt =====
-- A team at work: the threads of a region (src/kmp/fork.cc) report their implicit tasks to the
-- bridge (src/ompt/ompt.cc), in any order among each other.
pub mod Orders
pub mod Regions
use xkomp.Prelude.{
  ℕ, zero, suc, ◌≡◌, refl, arith, ap, sym, subst, ◌∙◌, Bool, true, false, ◌&&◌, Option, none, some,
  List, [], ◌∷◌, ◌++◌, map, ◌==◌, if◌then◌else◌, Bool-cases, inl, inr, Outcome, ok, ◌>>=◌, Returns,
  Returns->>=, if_both, if_true,
}
use xkomp.Ompt.{
  Bridge, Thread, ToolCode, Datum, thread_datum, team_datum, task_datum, Arguments, Endpoint,
  scope_begin, scope_end, implicit_task_args, Act, called, ompt_call, callback_at, renewed,
  thread_begin_args, thread_end_args, parallel_begin_args, parallel_end_args, task_create_args,
  task_schedule_args, dependences_args, sync_region_args,
}
use xkomp.Ompt.Tasks.{
  on_task_create, on_task_schedule, on_task_complete, on_task_accesses, dependences, dependence_of,
}
use xkomp.Ompt.Regions.{
  emit_sync_region, on_barrier, on_taskwait, on_taskgroup, implicit_task_begin, implicit_task_end,
  implicit_begin_args, implicit_end_args, task_implicit,
}
use xkomp.Ompt.System.{
  Action, start, stop, create, schedule, complete, accesses, at_barrier, at_taskwait, at_taskgroup,
  region_begin, region_end, implicit_begin, implicit_end, finalize, act, run,
}
use xkomp.Ompt.System.View.{count, suc_if, registered}
use xkomp.Task.Access.{Access}
use xkomp.Ompt.System.Quiet.{dependences-map}

-- The tool is told of the begin, or of the end, of the implicit task `k` of a region.
abbrev same_scope : Endpoint → Endpoint → Bool
same_scope scope_begin scope_begin = true
same_scope scope_end scope_end = true
same_scope _ _ = false

abbrev is_task : ℕ → Option Datum → Bool
is_task k (some (task_datum j)) = j == k
is_task k _ = false

abbrev tells : ℕ → Endpoint → Arguments → Bool
tells k scope (implicit_task_args s p t n i flags) =
    same_scope s scope && (is_task k t && flags == task_implicit)
tells k scope _ = false

abbrev pub is_told : ℕ → Endpoint → Act → Bool
is_told k scope (called which f args) = tells k scope args
is_told k scope _ = false

-- What a thread does inside a region, the reports of its implicit task among it.
abbrev pub is_inner : Action → Bool
is_inner (create task) = true
is_inner (schedule prev next) = true
is_inner complete = true
is_inner (accesses allocated task told) = true
is_inner (at_barrier team thread scope) = true
is_inner (at_taskwait thread task scope) = true
is_inner (at_taskgroup thread task scope) = true
is_inner (implicit_begin thread) = true
is_inner (implicit_end thread) = true
is_inner _ = false

-- The report of the begin, or of the end, of the implicit task `k`.
abbrev pub reports : ℕ → Endpoint → Action → Bool
reports k scope (implicit_begin thread) =
    same_scope scope_begin scope && (thread.implicit_task == k)
reports k scope (implicit_end thread) = same_scope scope_end scope && (thread.implicit_task == k)
reports k scope _ = false

-- A tool is active and has a function for implicit tasks, and has been told so often of the task.
abbrev pub Told : ℕ → Endpoint → ℕ → Bridge → Type 0
Told k scope n s =
    (s.enabled ≡ true) × (registered s.callbacks 7 ≡ true) × (count (is_told k scope) s.acts ≡ n)

begin-reports :
    (k : ℕ) (scope : Endpoint) (thread : Thread)
    → tells k scope (implicit_begin_args thread) ≡ reports k scope (implicit_begin thread)
begin-reports k scope_begin thread = ground arith
begin-reports k scope_end thread = refl

end-reports :
    (k : ℕ) (scope : Endpoint) (thread : Thread)
    → tells k scope (implicit_end_args thread) ≡ reports k scope (implicit_end thread)
end-reports k scope_begin thread = refl
end-reports k scope_end thread = ground arith

module _ (T : ToolCode) (k : ℕ) (scope : Endpoint) where
  ompt_call-Told :
      (n which : ℕ) (args : Arguments) (s : Bridge)
      → tells k scope args ≡ false
      → Told k scope n s
      → Told k scope n (ompt_call T which args s)
  unfolding ompt_call count
  ompt_call-Told n which args s other h = elim (Bool-cases (callback_at s.callbacks which == 0)) [
    | inl null ↦ rw null h
    | inr set ↦ rw set (h.0, h.1, ap (λ b. suc_if b (count (is_told k scope) s.acts)) other ∙ h.2)
  ]

  ompt_call-Told_task :
      (n : ℕ) (args : Arguments) (s : Bridge)
      → Told k scope n s
      → Told k scope (suc_if (tells k scope args) n) (ompt_call T 7 args s)
  unfolding ompt_call count
  ompt_call-Told_task n args s h = elim (Bool-cases (callback_at s.callbacks 7 == 0)) [
    | inl null ↦ absurd (ground arith)
    | inr set ↦ rw set (h.0, h.1, ap (suc_if (tells k scope args)) h.2)
  ]

  emit_sync_region-Told :
      (n kind : ℕ) (end : Endpoint) (p t : Option Datum) (s : Bridge)
      → Told k scope n s
      → Told k scope n (emit_sync_region T kind end p t s)
  unfolding emit_sync_region
  emit_sync_region-Told n kind scope_begin p t s h =
      ompt_call-Told n 16 _ _ refl (ompt_call-Told n 23 _ s refl h)
  emit_sync_region-Told n kind scope_end p t s h =
      ompt_call-Told n 23 _ _ refl (ompt_call-Told n 16 _ s refl h)

  on_task_accesses-Told :
      (n : ℕ) (allocated : Bool) (task : ℕ) (told : List Access) (s : Bridge)
      → Told k scope n s
      → Returns (Told k scope n) (on_task_accesses T allocated task (map some told) s)
  unfolding on_task_accesses
  on_task_accesses-Told n allocated task [] s h = h
  on_task_accesses-Told n false task (a ∷ told) s h =
      if_both (Returns (Told k scope n)) (callback_at s.callbacks 18 == 0) (ok s) (ok s) h h
  on_task_accesses-Told n true task (a ∷ told) s h =
      if_both (Returns (Told k scope n)) (callback_at s.callbacks 18 == 0) (ok s) _ h
        (rw (dependences-map T k (a ∷ told)) (ompt_call-Told n 18 _ s refl h))

  implicit_task_begin-Told :
      (n : ℕ) (thread : Thread) (s : Bridge)
      → Told k scope n s
      → Told k scope
          (suc_if (reports k scope (implicit_begin thread)) n)
          (implicit_task_begin T thread s)
  unfolding implicit_task_begin
  implicit_task_begin-Told n thread s h =
      let told =
        ompt_call T 7 (implicit_begin_args thread) (renewed (task_datum thread.implicit_task) s) in
      subst (Told k scope (suc_if (reports k scope (implicit_begin thread)) n))
        (sym (if_true s.enabled told s h.0))
        (subst (λ b. Told k scope (suc_if b n) told) (begin-reports k scope thread)
          (ompt_call-Told_task n (implicit_begin_args thread)
            (renewed (task_datum thread.implicit_task) s) h))

  implicit_task_end-Told :
      (n : ℕ) (thread : Thread) (s : Bridge)
      → Told k scope n s
      → Told k scope
          (suc_if (reports k scope (implicit_end thread)) n)
          (implicit_task_end T thread s)
  unfolding implicit_task_end
  implicit_task_end-Told n thread s h =
      let told = ompt_call T 7 (implicit_end_args thread) s in
      subst (Told k scope (suc_if (reports k scope (implicit_end thread)) n))
        (sym (if_true s.enabled told s h.0))
        (subst (λ b. Told k scope (suc_if b n) told) (end-reports k scope thread)
          (ompt_call-Told_task n (implicit_end_args thread) s h))

  pub act-Told :
      (n : ℕ) (a : Action) (s : Bridge)
      → is_inner a ≡ true
      → Told k scope n s
      → Returns (Told k scope (suc_if (reports k scope a) n)) (act T a s)
  unfolding act on_task_create on_task_schedule on_task_complete on_barrier on_taskwait on_taskgroup
  act-Told n (start me thread) s e h = cc
  act-Told n (stop me thread) s e h = cc
  act-Told n (create task) s e h = ompt_call-Told n 5 _ (renewed (task_datum task.id) s) refl h
  act-Told n (schedule prev next) s e h = ompt_call-Told n 6 _ s refl h
  act-Told n complete s e h = h
  act-Told n (accesses allocated task told) s e h = on_task_accesses-Told n allocated task told s h
  act-Told n (at_barrier team thread end) s e h = emit_sync_region-Told n _ end _ _ s h
  act-Told n (at_taskwait thread task end) s e h = emit_sync_region-Told n _ end _ _ s h
  act-Told n (at_taskgroup thread task end) s e h = emit_sync_region-Told n _ end _ _ s h
  act-Told n (region_begin team thread m codeptr) s e h = cc
  act-Told n (region_end team thread codeptr) s e h = cc
  act-Told n (implicit_begin thread) s e h = implicit_task_begin-Told n thread s h
  act-Told n (implicit_end thread) s e h = implicit_task_end-Told n thread s h
  act-Told n (finalize me thread) s e h = cc
