-- ===== src/Ompt/System/Quiet.antt =====
-- The functions of src/ompt/ompt.cc through their view: the events of tasks and regions change
-- nothing of it, and those of threads and the end of the tool change it as follows.
use xkomp.Prelude.{
  ℕ, ◌≡◌, refl, ap, ◌∙◌, Bool, true, false, Option, some, List, [], ◌∷◌, map, ◌==◌, if◌then◌else◌,
  ok, Returns, Bool-cases, inl, inr,
}
use xkomp.Ompt.{
  Bridge, Thread, Team, team_datum, renewed, ToolCode, Datum, thread_datum, task_datum, Arguments,
  Endpoint, scope_begin, scope_end, thread_begin_args, thread_end_args, ompt_call, callback_at,
}
use xkomp.Ompt.Threads.{
  first_start, end_thread, begin_args, with_begun, with_initial, is_null, begun, thread_initial,
  thread_worker,
}
use xkomp.Ompt.Tasks.{
  TaskInfo, on_task_create, on_task_schedule, on_task_complete, on_task_accesses, dependences,
  dependence_of,
}
use xkomp.Ompt.Regions.{
  emit_sync_region, on_barrier, on_taskwait, on_taskgroup, parallel_begin, parallel_end,
  implicit_task_begin, implicit_task_end,
}
use xkomp.Ompt.Lifecycle.{end_initial_task}
use xkomp.Ompt.System.View.{View, view, tell, view-ompt_call, view-ompt_call_other}
use xkomp.Task.Access.{Access}

abbrev pub begin_view : ℕ → Bool → View → View
begin_view me b v = record v { tls = with_begun me b v.tls }

abbrev pub initial_view : ℕ → Bool → View → View
initial_view me b v = record v { tls = with_initial me b v.tls }

module _ (T : ToolCode) (i : ℕ) where
  pub view-emit_sync_region :
      (kind : ℕ) (scope : Endpoint) (p t : Option Datum) (s : Bridge)
      → view i (emit_sync_region T kind scope p t s) ≡ view i s
  unfolding emit_sync_region
  view-emit_sync_region kind scope_begin p t s =
      view-ompt_call_other T i _ _ _ refl refl refl ∙ view-ompt_call_other T i _ _ s refl refl refl
  view-emit_sync_region kind scope_end p t s =
      view-ompt_call_other T i _ _ _ refl refl refl ∙ view-ompt_call_other T i _ _ s refl refl refl

  -- A call behind a test of OMPT_ENABLED.
  pub view-guarded :
      (b : Bool) (which : ℕ) (args : Arguments) (s' s : Bridge)
      → view i s' ≡ view i s
      → view i (ompt_call T which args s') ≡ view i s'
      → view i (if b then ompt_call T which args s' else s) ≡ view i s
  view-guarded true which args s' s h q = q ∙ h
  view-guarded false which args s' s h q = refl

  pub dependences-map :
      (told : List Access) → dependences (map some told) ≡ ok (map dependence_of told)
  unfolding dependences
  dependences-map [] = refl
  dependences-map (a ∷ told) = rw (dependences-map told) refl

  -- The tool is told of constructed accesses without a fault, and the view stays.
  pub view-on_task_accesses :
      (allocated : Bool) (task : ℕ) (told : List Access) (s : Bridge)
      → Returns (λ s'. view i s' ≡ view i s) (on_task_accesses T allocated task (map some told) s)
  unfolding on_task_accesses
  view-on_task_accesses allocated task [] s = refl
  view-on_task_accesses false task (a ∷ told) s =
      elim (Bool-cases (callback_at s.callbacks 18 == 0)) [ inl e ↦ rw e refl | inr e ↦ rw e refl ]
  view-on_task_accesses true task (a ∷ told) s =
      elim (Bool-cases (callback_at s.callbacks 18 == 0)) [
        | inl e ↦ rw e refl
        | inr e ↦
            rw (e, dependences-map (a ∷ told)) (view-ompt_call_other T i 18 _ s refl refl refl)
      ]

  pub view-first_start :
      (me : ℕ) (thread : Thread) (s : Bridge)
      → view i (first_start T me thread s) ≡ (
          let v = begin_view me true (tell i 1 (begin_args me thread) (view i s)) in
          if is_null thread.team then initial_view me true v else v)
  unfolding first_start
  view-first_start me thread s = elim (Bool-cases (is_null thread.team)) [
    | inl e ↦ rw e (
        ap (initial_view me true) (
          view-ompt_call_other T i 7 _ (begun me true (ompt_call T 1 (first_args thread_initial) s))
            refl refl refl)
        ∙ ap (initial_view me true)
            (ap (begin_view me true) (view-ompt_call T i 1 (first_args thread_initial) s refl)))
    | inr e ↦
        rw e (ap (begin_view me true) (view-ompt_call T i 1 (first_args thread_worker) s refl))
  ]
    where
      first_args : ℕ → Arguments
      first_args kind = thread_begin_args kind (thread_datum me)

  pub view-end_thread :
      (me : ℕ) (s : Bridge)
      → (s.tls me).thread_begun ≡ true
      → view i (end_thread T me s)
        ≡ begin_view me false (tell i 2 (thread_end_args (thread_datum me)) (view i s))
  view-end_thread me s h =
      rw h
        (ap (begin_view me false) (view-ompt_call T i 2 (thread_end_args (thread_datum me)) s refl))

  pub view-end_initial_task :
      (me : ℕ) (thread : Thread) (s : Bridge)
      → (s.tls me).initial_task ≡ true
      → view i (end_initial_task T me (some thread) s) ≡ initial_view me false (view i s)
  view-end_initial_task me thread s h =
      rw h (ap (initial_view me false) (view-ompt_call_other T i 7 _ s refl refl refl))

  pub view-on_task_create :
      (task : TaskInfo) (s : Bridge) → view i (on_task_create T task s) ≡ view i s
  unfolding on_task_create
  view-on_task_create task s =
      view-ompt_call_other T i 5 _ (renewed (task_datum task.id) s) refl refl refl

  pub view-on_task_schedule :
      (prev next : Option ℕ) (s : Bridge) → view i (on_task_schedule T prev next s) ≡ view i s
  unfolding on_task_schedule
  view-on_task_schedule prev next s = view-ompt_call_other T i 6 _ s refl refl refl

  pub view-on_task_complete : (s : Bridge) → view i (on_task_complete s) ≡ view i s
  unfolding on_task_complete
  view-on_task_complete s = refl

  pub view-on_barrier :
      (team : Option Team) (thread : Option Thread) (scope : Endpoint) (s : Bridge)
      → view i (on_barrier T team thread scope s) ≡ view i s
  unfolding on_barrier
  view-on_barrier team thread scope s = view-emit_sync_region _ scope _ _ s

  pub view-on_taskwait :
      (thread : Option Thread) (task : Option ℕ) (scope : Endpoint) (s : Bridge)
      → view i (on_taskwait T thread task scope s) ≡ view i s
  unfolding on_taskwait
  view-on_taskwait thread task scope s = view-emit_sync_region _ scope _ _ s

  pub view-on_taskgroup :
      (thread : Option Thread) (task : Option ℕ) (scope : Endpoint) (s : Bridge)
      → view i (on_taskgroup T thread task scope s) ≡ view i s
  unfolding on_taskgroup
  view-on_taskgroup thread task scope s = view-emit_sync_region _ scope _ _ s

  pub view-parallel_begin :
      (team : Team) (thread : Option Thread) (n codeptr : ℕ) (s : Bridge)
      → view i (parallel_begin T team thread n codeptr s) ≡ view i s
  unfolding parallel_begin
  view-parallel_begin team thread n codeptr s =
      view-guarded s.enabled 3 _ (renewed (team_datum team.id) s) s refl
        (view-ompt_call_other T i 3 _ (renewed (team_datum team.id) s) refl refl refl)

  pub view-parallel_end :
      (team : Team) (thread : Option Thread) (codeptr : ℕ) (s : Bridge)
      → view i (parallel_end T team thread codeptr s) ≡ view i s
  unfolding parallel_end
  view-parallel_end team thread codeptr s =
      view-guarded s.enabled 4 _ s s refl (view-ompt_call_other T i 4 _ s refl refl refl)

  pub view-implicit_task_begin :
      (thread : Thread) (s : Bridge) → view i (implicit_task_begin T thread s) ≡ view i s
  unfolding implicit_task_begin
  view-implicit_task_begin thread s =
      let s' = renewed (task_datum thread.implicit_task) s in
      view-guarded s.enabled 7 _ s' s refl (view-ompt_call_other T i 7 _ s' refl refl refl)

  pub view-implicit_task_end :
      (thread : Thread) (s : Bridge) → view i (implicit_task_end T thread s) ≡ view i s
  unfolding implicit_task_end
  view-implicit_task_end thread s =
      view-guarded s.enabled 7 _ s s refl (view-ompt_call_other T i 7 _ s refl refl refl)
