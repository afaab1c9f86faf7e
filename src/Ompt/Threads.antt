-- ===== src/Ompt/Threads.antt =====
-- The threads of src/ompt/ompt.cc: the events at the start and the stop of a thread, and those that
-- the end of the program makes up for. `me` is the thread of the operating system that runs.
use xkomp.Prelude.{ℕ, Bool, true, false, Option, none, some, ◌==◌, if◌then◌else◌}
use xkomp.Ompt.{
  Bridge, Thread, Tls, ToolCode, Datum, thread_datum, team_datum, task_datum, thread_begin_args,
  thread_end_args, implicit_task_args, scope_begin, scope_end, ompt_call, write_tls,
}

abbrev pub is_null {ℓ} : {A : Type ℓ} → Option A → Bool
is_null none = true
is_null (some a) = false

-- `ompt_thread_t` and `ompt_task_initial`.
abbrev pub thread_initial : ℕ
thread_initial = 1

abbrev pub thread_worker : ℕ
thread_worker = 2

abbrev pub task_initial : ℕ
task_initial = 1

abbrev pub with_begun : ℕ → Bool → (ℕ → Tls) → ℕ → Tls
with_begun me b tls = write_tls me (record (tls me) { thread_begun = b }) tls

abbrev pub with_initial : ℕ → Bool → (ℕ → Tls) → ℕ → Tls
with_initial me b tls = write_tls me (record (tls me) { initial_task = b }) tls

abbrev pub begun : ℕ → Bool → Bridge → Bridge
begun me b s = record s { tls = with_begun me b s.tls }

abbrev pub in_initial_task : ℕ → Bool → Bridge → Bridge
in_initial_task me b s = record s { tls = with_initial me b s.tls }

-- The thread that enters a team again as its first member.
abbrev pub reenters : Thread → Bool
reenters thread = if is_null thread.team then false else thread.tid == 0

abbrev pub begin_args : ℕ → Thread → xkomp.Ompt.Arguments
begin_args me thread =
    thread_begin_args (if is_null thread.team then thread_initial else thread_worker)
      (thread_datum me)

abbrev begin_initial_task : ToolCode → ℕ → Thread → Bridge → Bridge
begin_initial_task T me thread s = in_initial_task me true (
    ompt_call T 7
      (implicit_task_args scope_begin none (some (task_datum thread.implicit_task)) 1 0
        task_initial)
      s)

-- A thread that has not been reported.
unfoldable pub first_start : ToolCode → ℕ → Thread → Bridge → Bridge
first_start T me thread s =
    let s_begun = begun me true (ompt_call T 1 (begin_args me thread) s) in
    if is_null thread.team then begin_initial_task T me thread s_begun else s_begun

unfoldable pub on_thread_start : ToolCode → ℕ → Thread → Bridge → Bridge
on_thread_start T me thread s =
    if reenters thread then s else if (s.tls me).thread_begun then s else first_start T me thread s

abbrev pub end_thread : ToolCode → ℕ → Bridge → Bridge
end_thread T me s =
    if (s.tls me).thread_begun
    then begun me false (ompt_call T 2 (thread_end_args (thread_datum me)) s)
    else s

unfoldable pub on_thread_stop : ToolCode → ℕ → Thread → Bridge → Bridge
on_thread_stop T me thread s = if reenters thread then s else end_thread T me s
