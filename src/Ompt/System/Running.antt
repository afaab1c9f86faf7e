-- ===== src/Ompt/System/Running.antt =====
-- Which threads run, by the starts, the stops and the end of the tool in a run (src/ompt/ompt.cc),
-- and that the flags of the bridge follow them.
use xkomp.Prelude.{
  ℕ, ◌≡◌, refl, sym, ap, subst, ◌∙◌, ==_iff, Bool, true, false, not, arith, ◌&&◌, ◌||◌, Option,
  none, some, List, [], ◌∷◌, map, ◌==◌, if◌then◌else◌, if_true, if_false, Returns, Returns-map,
  Returns->>=, Bool-cases, inl, inr,
}
use xkomp.Ompt.{Bridge, Thread, ToolCode}
use xkomp.Ompt.Threads.{on_thread_start, on_thread_stop, end_thread, reenters, is_null, begin_args}
use xkomp.Ompt.Tasks.{on_task_accesses}
use xkomp.Ompt.Lifecycle.{
  do_finalize, finish, leave, finalize_tool, close_library, end_initial_task,
}
use xkomp.Ompt.System.{
  Action, start, stop, create, schedule, complete, accesses, at_barrier, at_taskwait, at_taskgroup,
  region_begin, region_end, implicit_begin, implicit_end, finalize, act, run,
}
use xkomp.Ompt.System.View.{View, view, tell}
use xkomp.Ompt.System.Quiet.{
  begin_view, initial_view, view-on_task_accesses, view-on_task_create, view-on_task_schedule,
  view-on_task_complete, view-on_barrier, view-on_taskwait, view-on_taskgroup, view-parallel_begin,
  view-parallel_end, view-implicit_task_begin, view-implicit_task_end, view-first_start,
  view-end_thread, view-end_initial_task,
}

-- Whether the thread that is looked at runs, whether the end of the tool has come, and whether the
-- tool is active.
pub record Seen : Type 0 where
  pub up : Bool
  pub over : Bool
  pub on : Bool

-- A thread that is in no team, or in one as another than its first member.
abbrev pub enters : Thread → Bool
enters thread = is_null thread.team || not (thread.tid == 0)

-- Of the thread `i`, after one call: a start lets it run, a stop and the first end of the tool, by
-- that thread, let it not run.
abbrev pub see : ℕ → Action → Seen → Seen
see i (start me thread) x = record x { up = if (i == me) && enters thread then true else x.up }
see i (stop me thread) x = record x { up = if (i == me) && enters thread then false else x.up }
see i (finalize me thread) x =
    if x.over
    then x
    else if x.on
    then record { up = if i == me then false else x.up; over = true; on = false }
    else record x { over = true }
see i _ x = x

abbrev pub see_all : ℕ → List Action → Seen → Seen
see_all i [] x = x
see_all i (a ∷ rest) x = see_all i rest (see i a x)

abbrev pub Follows : ℕ → Seen → View → Type 0
Follows i x v = ((v.tls i).thread_begun ≡ x.up) × (v.done ≡ x.over) × (v.enabled ≡ x.on)

enters_lem : (thread : Thread) → enters thread ≡ not (reenters thread)
enters_lem thread = elim (Bool-cases (is_null thread.team)) [
  | inl e ↦ rw e refl
  | inr e ↦ rw e refl
]

and_false : (b : Bool) → (b && false) ≡ false
and_false b = ground arith

and_true : (b : Bool) → (b && true) ≡ b
and_true b = ground arith

same : (i me : ℕ) → (i == me) ≡ true → i ≡ me
same i me h = (==_iff i me).0 h

module _ (T : ToolCode) (i : ℕ) where
  -- The flag of the thread after a call that sets that of `me`.
  begun_view-Follows :
      (me : ℕ) (b : Bool) (x : Seen) (v : View)
      → Follows i x v
      → Follows i (record x { up = if i == me then b else x.up }) (begin_view me b v)
  begun_view-Follows me b x v h = elim (Bool-cases (i == me)) [
    | inl e ↦ rw e (refl, h.1, h.2)
    | inr e ↦ rw e h
  ]

  initial_view-Follows :
      (me : ℕ) (b : Bool) (x : Seen) (v : View) → Follows i x v → Follows i x (initial_view me b v)
  initial_view-Follows me b x v h = elim (Bool-cases (i == me)) [
    | inl e ↦
        let k = same i me e in rw e (subst (λ j. (v.tls j).thread_begun ≡ x.up) k h.0, h.1, h.2)
    | inr e ↦ rw e h
  ]

  -- A call that leaves the thread `me` as one that runs, or not.
  unchanged-Follows :
      (me : ℕ) (b : Bool) (x : Seen) (v : View)
      → (v.tls me).thread_begun ≡ b
      → Follows i x v
      → Follows i (record x { up = if i == me then b else x.up }) v
  unchanged-Follows me b x v f h = elim (Bool-cases (i == me)) [
    | inl e ↦
        let k = same i me e in rw e (subst (λ j. (v.tls j).thread_begun ≡ b) (sym k) f, h.1, h.2)
    | inr e ↦ rw e h
  ]

  initial_if-Follows :
      (me : ℕ) (c : Bool) (x : Seen) (v : View)
      → Follows i x v
      → Follows i x (if c then initial_view me true v else v)
  initial_if-Follows me true x v h = initial_view-Follows me true x v h
  initial_if-Follows me false x v h = h

  start-Follows :
      (me : ℕ) (thread : Thread) (x : Seen) (s : Bridge)
      → Follows i x (view i s)
      → Follows i (see i (start me thread) x) (view i (on_thread_start T me thread s))
  unfolding on_thread_start
  start-Follows me thread x s h = elim (Bool-cases (reenters thread)) [
    | inl e ↦ rw (e, enters_lem thread ∙ ap not e, and_false (i == me)) h
    | inr e ↦ elim (Bool-cases (s.tls me).thread_begun) [
      | inl b ↦
          rw (e, enters_lem thread ∙ ap not e, and_true (i == me), b)
            (unchanged-Follows me true x (view i s) b h)
      | inr b ↦
          rw (e, enters_lem thread ∙ ap not e, and_true (i == me), b)
            (subst (Follows i (record x { up = if i == me then true else x.up }))
              (sym (view-first_start T i me thread s))
              (initial_if-Follows me (is_null thread.team)
                (record x { up = if i == me then true else x.up })
                (begin_view me true (tell i 1 (begin_args me thread) (view i s)))
                (begun_view-Follows me true x (tell i 1 (begin_args me thread) (view i s)) h)))
    ]
  ]

  end_thread-Follows :
      (me : ℕ) (x : Seen) (s : Bridge)
      → Follows i x (view i s)
      → Follows i (record x { up = if i == me then false else x.up }) (view i (end_thread T me s))
  end_thread-Follows me x s h = elim (Bool-cases (s.tls me).thread_begun) [
    | inl b ↦
        subst (Follows i (record x { up = if i == me then false else x.up }))
          (sym (view-end_thread T i me s b)) (begun_view-Follows me false x (view i s) h)
    | inr b ↦ rw b (unchanged-Follows me false x (view i s) b h)
  ]

  stop-Follows :
      (me : ℕ) (thread : Thread) (x : Seen) (s : Bridge)
      → Follows i x (view i s)
      → Follows i (see i (stop me thread) x) (view i (on_thread_stop T me thread s))
  unfolding on_thread_stop
  stop-Follows me thread x s h = elim (Bool-cases (reenters thread)) [
    | inl e ↦ rw (e, enters_lem thread ∙ ap not e, and_false (i == me)) h
    | inr e ↦ rw (e, enters_lem thread ∙ ap not e, and_true (i == me)) (end_thread-Follows me x s h)
  ]

  end_initial_task-Follows :
      (me : ℕ) (thread : Option Thread) (x : Seen) (s : Bridge)
      → Follows i x (view i s)
      → Follows i x (view i (end_initial_task T me thread s))
  end_initial_task-Follows me none x s h = h
  end_initial_task-Follows me (some thread) x s h = elim (Bool-cases (s.tls me).initial_task) [
    | inl b ↦
        subst (Follows i x) (sym (view-end_initial_task T i me thread s b))
          (initial_view-Follows me false x (view i s) h)
    | inr b ↦ rw b h
  ]

  -- The fields that the bridge leaves alone behind the last reports.
  abbrev Alone : Bridge → Bridge → Type 0
  Alone s s' = (s'.tls ≡ s.tls) × (s'.done ≡ s.done) × (s'.enabled ≡ s.enabled)

  finalize_tool-Alone : (t : Option ℕ) (s : Bridge) → Alone s (finalize_tool T t s)
  finalize_tool-Alone none s = (refl, refl, refl)
  finalize_tool-Alone (some t) s = elim (Bool-cases (T.finalizes t)) [
    | inl e ↦ rw e (refl, refl, refl)
    | inr e ↦ rw e (refl, refl, refl)
  ]

  close_library-Alone : (l : Option ℕ) (s : Bridge) → Alone s (close_library l s)
  close_library-Alone none s = (refl, refl, refl)
  close_library-Alone (some l) s = (refl, refl, refl)

  leave-Alone : (s : Bridge) → Alone (record s { enabled = false }) (leave T s)
  leave-Alone s =
      let off : Bridge = record s { enabled = false } in
      let ended = finalize_tool T s.tool off in
      let a = finalize_tool-Alone s.tool off in
      let b = close_library-Alone ended.dlhandle ended in (b.0 ∙ a.0, b.1 ∙ a.1, b.2 ∙ a.2)

  finish_off :
      (me : ℕ) (thread : Option Thread) (s : Bridge) → s.enabled ≡ false → finish T me thread s ≡ s
  unfolding finish
  finish_off me thread s off = if_false s.enabled _ s off

  finish-Follows :
      (me : ℕ) (thread : Option Thread) (x : Seen) (s : Bridge)
      → x.on ≡ true
      → Follows i x (view i s)
      → Follows i
          (record { up = if i == me then false else x.up; over = x.over; on = false })
          (view i (finish T me thread s))
  unfolding finish
  finish-Follows me thread x s on h =
      let s_task = end_initial_task T me thread s in
      let s_end = end_thread T me s_task in
      let k = end_thread-Follows me x s_task (end_initial_task-Follows me thread x s h) in
      let a = leave-Alone s_end in
      subst
        (λ r.
          Follows i (record { up = if i == me then false else x.up; over = x.over; on = false })
            (view i r))
        (sym (if_true s.enabled (leave T s_end) s (h.2 ∙ on)))
        (ap (λ t. (t i).thread_begun) a.0 ∙ k.0, a.1 ∙ k.1, a.2)

  flags-Follows :
      (me : ℕ) (thread : Option Thread) (up over on : Bool) (s : Bridge)
      → Follows i (record { up = up; over = over; on = on }) (view i s)
      → Follows i
          (see i (finalize me thread) (record { up = up; over = over; on = on }))
          (view i (do_finalize T me thread s))
  unfolding do_finalize
  flags-Follows me thread up true on s h =
      subst (λ r. Follows i (record { up = up; over = true; on = on }) (view i r))
        (sym (if_true s.done s (finish T me thread (record s { done = true })) h.1)) h
  flags-Follows me thread up false true s h =
      subst
        (λ r.
          Follows i (record { up = if i == me then false else up; over = true; on = false })
            (view i r))
        (sym (if_false s.done s (finish T me thread (record s { done = true })) h.1))
        (finish-Follows me thread (record { up = up; over = true; on = true })
          (record s { done = true }) refl (h.0, refl, h.2))
  flags-Follows me thread up false false s h =
      subst (λ r. Follows i (record { up = up; over = true; on = false }) (view i r))
        (sym (
          if_false s.done s (finish T me thread (record s { done = true })) h.1
          ∙ finish_off me thread (record s { done = true }) h.2))
        (h.0, refl, h.2)

  finalize-Follows :
      (me : ℕ) (thread : Option Thread) (x : Seen) (s : Bridge)
      → Follows i x (view i s)
      → Follows i (see i (finalize me thread) x) (view i (do_finalize T me thread s))
  finalize-Follows me thread x s h = flags-Follows me thread x.up x.over x.on s h

  act-Follows :
      (a : Action) (x : Seen) (s : Bridge)
      → Follows i x (view i s)
      → Returns (λ s'. Follows i (see i a x) (view i s')) (act T a s)
  unfolding act
  act-Follows (start me thread) x s h = start-Follows me thread x s h
  act-Follows (stop me thread) x s h = stop-Follows me thread x s h
  act-Follows (create task) x s h = subst (Follows i x) (sym (view-on_task_create T i task s)) h
  act-Follows (schedule prev next) x s h =
      subst (Follows i x) (sym (view-on_task_schedule T i prev next s)) h
  act-Follows complete x s h = subst (Follows i x) (sym (view-on_task_complete T i s)) h
  act-Follows (accesses allocated task told) x s h =
      Returns-map (λ s'. view i s' ≡ view i s) (λ s'. Follows i x (view i s'))
        (λ s' e. subst (Follows i x) (sym e) h)
        (on_task_accesses T allocated task (map some told) s)
        (view-on_task_accesses T i allocated task told s)
  act-Follows (at_barrier team thread scope) x s h =
      subst (Follows i x) (sym (view-on_barrier T i team thread scope s)) h
  act-Follows (at_taskwait thread task scope) x s h =
      subst (Follows i x) (sym (view-on_taskwait T i thread task scope s)) h
  act-Follows (at_taskgroup thread task scope) x s h =
      subst (Follows i x) (sym (view-on_taskgroup T i thread task scope s)) h
  act-Follows (region_begin team thread n codeptr) x s h =
      subst (Follows i x) (sym (view-parallel_begin T i team thread n codeptr s)) h
  act-Follows (region_end team thread codeptr) x s h =
      subst (Follows i x) (sym (view-parallel_end T i team thread codeptr s)) h
  act-Follows (implicit_begin thread) x s h =
      subst (Follows i x) (sym (view-implicit_task_begin T i thread s)) h
  act-Follows (implicit_end thread) x s h =
      subst (Follows i x) (sym (view-implicit_task_end T i thread s)) h
  act-Follows (finalize me thread) x s h = finalize-Follows me thread x s h

  pub run-Follows :
      (actions : List Action) (x : Seen) (s : Bridge)
      → Follows i x (view i s)
      → Returns (λ s'. Follows i (see_all i actions x) (view i s')) (run T actions s)
  unfolding run
  run-Follows [] x s h = h
  run-Follows (a ∷ rest) x s h =
      Returns->>= (λ s'. Follows i (see_all i rest (see i a x)) (view i s')) (act T a s)
        (run T rest) (act-Follows a x s h) (run-Follows rest (see i a x))
