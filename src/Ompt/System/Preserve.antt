-- ===== src/Ompt/System/Preserve.antt =====
-- What holds of the view of the bridge of src/ompt/ompt.cc before a run and is kept by the starts
-- and stops of threads and by the end of the tool holds behind every run, and every run returns.
use xkomp.Prelude.{
  ℕ, ◌≡◌, sym, subst, Bool, true, false, Option, none, some, List, [], ◌∷◌, map, if◌then◌else◌,
  if_both, suc, Returns, Returns-map, Returns->>=, Bool-cases, inl, inr,
}
use xkomp.Ompt.{
  Bridge, Thread, ToolCode, finalized, thread_datum, thread_begin_args, thread_end_args,
}
use xkomp.Ompt.Threads.{
  on_thread_start, on_thread_stop, first_start, end_thread, reenters, begin_args, is_null,
}
use xkomp.Ompt.Tasks.{on_task_accesses}
use xkomp.Ompt.Discovery.{did}
use xkomp.Ompt.Lifecycle.{
  do_finalize, finish, leave, finalize_tool, close_library, end_initial_task,
}
use xkomp.Ompt.System.{
  Action, start, stop, create, schedule, complete, accesses, at_barrier, at_taskwait, at_taskgroup,
  region_begin, region_end, implicit_begin, implicit_end, finalize, act, run,
}
use xkomp.Ompt.System.View.{View, view, count, tell}
use xkomp.Ompt.System.Quiet.{
  begin_view, initial_view, view-on_task_accesses, view-on_task_create, view-on_task_schedule,
  view-on_task_complete, view-on_barrier, view-on_taskwait, view-on_taskgroup, view-parallel_begin,
  view-parallel_end, view-implicit_task_begin, view-implicit_task_end, view-first_start,
  view-end_thread, view-end_initial_task,
}

module _ (T : ToolCode) (i : ℕ) (P : View → Type 0)
    (keeps_begin : (me kind : ℕ) (v : View)
      → (v.tls me).thread_begun ≡ false
      → P v
      → P (begin_view me true (tell i 1 (thread_begin_args kind (thread_datum me)) v)))
    (keeps_initial : (me : ℕ) (b : Bool) (v : View) → P v → P (initial_view me b v))
    (keeps_end : (me : ℕ) (v : View)
      → (v.tls me).thread_begun ≡ true
      → P v
      → P (begin_view me false (tell i 2 (thread_end_args (thread_datum me)) v))) where
  pub first_start-Keeps :
      (me : ℕ) (thread : Thread) (s : Bridge)
      → (s.tls me).thread_begun ≡ false
      → P (view i s)
      → P (view i (first_start T me thread s))
  first_start-Keeps me thread s new h =
      subst P (sym (view-first_start T i me thread s)) (both (is_null thread.team) started)
    where
      started : P (begin_view me true (tell i 1 (begin_args me thread) (view i s)))
      started = keeps_begin me (if is_null thread.team then 1 else 2) (view i s) new h

      both : (b : Bool) {v : View} → P v → P (if b then initial_view me true v else v)
      both true p = keeps_initial me true _ p
      both false p = p

  pub on_thread_start-Keeps :
      (me : ℕ) (thread : Thread) (s : Bridge)
      → P (view i s)
      → P (view i (on_thread_start T me thread s))
  unfolding on_thread_start
  on_thread_start-Keeps me thread s h = elim (Bool-cases (reenters thread)) [
    | inl e ↦ rw e h
    | inr e ↦ elim (Bool-cases (s.tls me).thread_begun) [
      | inl b ↦ rw (e, b) h
      | inr b ↦ rw (e, b) (first_start-Keeps me thread s b h)
    ]
  ]

  pub end_thread-Keeps : (me : ℕ) (s : Bridge) → P (view i s) → P (view i (end_thread T me s))
  end_thread-Keeps me s h = elim (Bool-cases (s.tls me).thread_begun) [
    | inl b ↦ subst P (sym (view-end_thread T i me s b)) (keeps_end me (view i s) b h)
    | inr b ↦ rw b h
  ]

  pub on_thread_stop-Keeps :
      (me : ℕ) (thread : Thread) (s : Bridge)
      → P (view i s)
      → P (view i (on_thread_stop T me thread s))
  unfolding on_thread_stop
  on_thread_stop-Keeps me thread s h = elim (Bool-cases (reenters thread)) [
    | inl e ↦ rw e h
    | inr e ↦ rw e (end_thread-Keeps me s h)
  ]

  pub end_initial_task-Keeps :
      (me : ℕ) (thread : Option Thread) (s : Bridge)
      → P (view i s)
      → P (view i (end_initial_task T me thread s))
  end_initial_task-Keeps me none s h = h
  end_initial_task-Keeps me (some thread) s h = elim (Bool-cases (s.tls me).initial_task) [
    | inl b ↦
        subst P (sym (view-end_initial_task T i me thread s b))
          (keeps_initial me false (view i s) h)
    | inr b ↦ rw b h
  ]

  module _
      (keeps_finalize : (me : ℕ) (thread : Option Thread) (s : Bridge)
        → P (view i s)
        → P (view i (do_finalize T me thread s))) where
    pub act-Keeps :
        (a : Action) (s : Bridge) → P (view i s) → Returns (λ s'. P (view i s')) (act T a s)
    unfolding act
    act-Keeps (start me thread) s h = on_thread_start-Keeps me thread s h
    act-Keeps (stop me thread) s h = on_thread_stop-Keeps me thread s h
    act-Keeps (create task) s h = subst P (sym (view-on_task_create T i task s)) h
    act-Keeps (schedule prev next) s h = subst P (sym (view-on_task_schedule T i prev next s)) h
    act-Keeps complete s h = subst P (sym (view-on_task_complete T i s)) h
    act-Keeps (accesses allocated task told) s h =
        Returns-map (λ s'. view i s' ≡ view i s) (λ s'. P (view i s')) (λ s' e. subst P (sym e) h)
          (on_task_accesses T allocated task (map some told) s)
          (view-on_task_accesses T i allocated task told s)
    act-Keeps (at_barrier team thread scope) s h =
        subst P (sym (view-on_barrier T i team thread scope s)) h
    act-Keeps (at_taskwait thread task scope) s h =
        subst P (sym (view-on_taskwait T i thread task scope s)) h
    act-Keeps (at_taskgroup thread task scope) s h =
        subst P (sym (view-on_taskgroup T i thread task scope s)) h
    act-Keeps (region_begin team thread n codeptr) s h =
        subst P (sym (view-parallel_begin T i team thread n codeptr s)) h
    act-Keeps (region_end team thread codeptr) s h =
        subst P (sym (view-parallel_end T i team thread codeptr s)) h
    act-Keeps (implicit_begin thread) s h = subst P (sym (view-implicit_task_begin T i thread s)) h
    act-Keeps (implicit_end thread) s h = subst P (sym (view-implicit_task_end T i thread s)) h
    act-Keeps (finalize me thread) s h = keeps_finalize me thread s h

    pub run-Keeps :
        (actions : List Action) (s : Bridge)
        → P (view i s)
        → Returns (λ s'. P (view i s')) (run T actions s)
    unfolding run
    run-Keeps [] s h = h
    run-Keeps (a ∷ rest) s h =
        Returns->>= (λ s'. P (view i s')) (act T a s) (run T rest) (act-Keeps a s h)
          (run-Keeps rest)

  -- Where it does not depend on the fields of the tool's life either, the end of the tool keeps it.
  module _
      (keeps_life : (v : View) (enabled done : Bool) (dlhandle : Option ℕ) (finals closes : ℕ)
        → P v
        → P (record v {
          enabled = enabled;
          done = done;
          dlhandle = dlhandle;
          finals = finals;
          closes = closes;
        })) where
    close_library-Keeps :
        (o : Option ℕ) (s : Bridge) → P (view i s) → P (view i (close_library o s))
    unfolding count
    close_library-Keeps none s h = h
    close_library-Keeps (some l) s h =
        let v = view i s in keeps_life v v.enabled v.done none v.finals (suc v.closes) h

    finalize_tool-Keeps :
        (o : Option ℕ) (s : Bridge) → P (view i s) → P (view i (finalize_tool T o s))
    unfolding count
    finalize_tool-Keeps none s h = h
    finalize_tool-Keeps (some t) s h =
        let v = view i s in
        if_both (λ r. P (view i r)) (T.finalizes t) (did (finalized t) s) s
          (keeps_life v v.enabled v.done v.dlhandle (suc v.finals) v.closes h) h

    leave-Keeps : (s : Bridge) → P (view i s) → P (view i (leave T s))
    leave-Keeps s h =
        let v = view i s in
        let s_off : Bridge = record s { enabled = false } in
        let s_tool = finalize_tool T s.tool s_off in
        close_library-Keeps s_tool.dlhandle s_tool (
          finalize_tool-Keeps s.tool s_off
            (keeps_life v false v.done v.dlhandle v.finals v.closes h))

    finish-Keeps :
        (me : ℕ) (thread : Option Thread) (s : Bridge)
        → P (view i s)
        → P (view i (finish T me thread s))
    unfolding finish
    finish-Keeps me thread s h =
        let s_task = end_initial_task T me thread s in
        let s_end = end_thread T me s_task in
        if_both (λ r. P (view i r)) s.enabled (leave T s_end) s
          (leave-Keeps s_end (end_thread-Keeps me s_task (end_initial_task-Keeps me thread s h))) h

    pub do_finalize-Keeps :
        (me : ℕ) (thread : Option Thread) (s : Bridge)
        → P (view i s)
        → P (view i (do_finalize T me thread s))
    unfolding do_finalize
    do_finalize-Keeps me thread s h =
        let v = view i s in
        let s_done : Bridge = record s { done = true } in
        if_both (λ r. P (view i r)) s.done s (finish T me thread s_done) h
          (finish-Keeps me thread s_done
            (keeps_life v v.enabled true v.dlhandle v.finals v.closes h))

    pub run-KeepsAll :
        (actions : List Action) (s : Bridge)
        → P (view i s)
        → Returns (λ s'. P (view i s')) (run T actions s)
    run-KeepsAll = run-Keeps do_finalize-Keeps
