-- ===== src/Ompt/Lifecycle.antt =====
-- The life of the tool in src/ompt/ompt.cc: `xkomp_ompt_bridge_initialize`, which XKRT calls once
-- it is connected, and `xkomp_ompt_do_finalize`, which is called by the exit of the program, by
-- XKRT's finalization and by the tool.
use xkomp.Prelude.{ℕ, Bool, true, false, Option, none, some, List, [], ◌∷◌, if◌then◌else◌}
use xkomp.Ompt.{
  Bridge, Thread, ToolCode, task_datum, initialized, finalized, closed, bridged, exit_handler,
  XkrtEvent, thread_start, thread_stop, task_create, task_schedule, task_complete, task_accesses,
  barrier, taskwait, taskgroup, implicit_task_args, scope_end, ompt_call, set_callback,
}
use xkomp.Ompt.Threads.{end_thread, in_initial_task, task_initial}
use xkomp.Ompt.Discovery.{Loader, discover, did}

-- Closes the library, if the tool came from one.
abbrev pub close_library : Option ℕ → Bridge → Bridge
close_library none s = s
close_library (some h) s = record (did (closed h) s) { dlhandle = none }

abbrev pub finalize_tool : ToolCode → Option ℕ → Bridge → Bridge
finalize_tool T none s = s
finalize_tool T (some t) s = if T.finalizes t then did (finalized t) s else s

-- The end of the initial task of the thread that finalizes, where that thread is known to XKRT.
abbrev pub end_initial_task : ToolCode → ℕ → Option Thread → Bridge → Bridge
end_initial_task T me none s = s
end_initial_task T me (some thread) s =
    if (s.tls me).initial_task
    then in_initial_task me false (
        ompt_call T 7
          (implicit_task_args scope_end none (some (task_datum thread.implicit_task)) 0 0
            task_initial)
          s)
    else s

abbrev pub leave : ToolCode → Bridge → Bridge
leave T s =
    let s_off = record s { enabled = false } in
    let s_tool = finalize_tool T s_off.tool s_off in close_library s_tool.dlhandle s_tool

-- `thread` is the caller's, if it is a thread of XKRT.
unfoldable pub finish : ToolCode → ℕ → Option Thread → Bridge → Bridge
finish T me thread s =
    if s.enabled then leave T (end_thread T me (end_initial_task T me thread s)) else s

-- The exchange of the flag lets one call pass.
unfoldable pub do_finalize : ToolCode → ℕ → Option Thread → Bridge → Bridge
do_finalize T me thread s = if s.done then s else finish T me thread (record s { done = true })

-- The three ways to it: from the tool, at the exit of the program, and from XKRT.
abbrev pub finalize_from_tool : ToolCode → ℕ → Option Thread → Bridge → Bridge
finalize_from_tool = do_finalize

abbrev pub at_exit : ToolCode → ℕ → Option Thread → Bridge → Bridge
at_exit = do_finalize

abbrev pub bridge_finalize : ToolCode → ℕ → Option Thread → Bridge → Bridge
bridge_finalize = do_finalize

-- The registrations of the tool's `initialize`.
unfoldable pub registers : List (ℕ × ℕ) → Bridge → Bridge
registers [] s = s
registers ((which, f) ∷ rest) s = registers rest ((set_callback which f s).1)

abbrev pub xkrt_events : List XkrtEvent
xkrt_events =
    thread_start ∷ thread_stop ∷ task_create ∷ task_schedule ∷ task_complete ∷ task_accesses
    ∷ barrier ∷ taskwait ∷ taskgroup ∷ []

unfoldable pub register_all : List XkrtEvent → Bridge → Bridge
register_all [] s = s
register_all (e ∷ es) s = register_all es (did (bridged e) s)

unfoldable pub activate : Bool → Bridge → Bool × Bridge
unfolding register_all
activate true s = (true, did exit_handler (register_all xkrt_events (record s { enabled = true })))
activate false s = (false, record (close_library s.dlhandle s) { tool = none })

unfoldable pub initialize_tool :
    ToolCode → ℕ → Option (List (ℕ × ℕ) × Bool) → Bridge → Bool × Bridge
unfolding registers
initialize_tool T t none s = activate true s
initialize_tool T t (some (registrations, active)) s =
    activate active (registers registrations (did (initialized t) s))

abbrev pub set_up : ToolCode → Option ℕ × Bridge → Bool × Bridge
set_up T (none, s) = (false, record s { tool = none })
set_up T (some t, s) = initialize_tool T t (T.initialize t) (record s { tool = some t })

unfoldable pub bridge_initialize : ToolCode → Loader → Bridge → Bool × Bridge
unfolding discover
bridge_initialize T L s = set_up T (discover L s)
