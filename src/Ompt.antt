-- ===== src/Ompt.antt =====
-- src/ompt/ompt.cc: the bridge between the events of XKRT and a tool for OpenMP (OMPT). Its static
-- variables are one record, with the thread-local ones by the number of the operating system's
-- thread; a function of the tool is its address, 0 for NULL. What the tool does to the data that
-- it is given pointers to is a parameter. The numbers are those of include/omp-tools.h.
pub mod Table
pub mod Threads
pub mod Tasks
pub mod Regions
pub mod Discovery
pub mod Lifecycle
pub mod System
pub mod Queries
use xkomp.Prelude.{
  ℕ, ◌+◌, ◌%◌, ◌^◌, Bool, true, false, ◌&&◌, ◌||◌, not, Option, none, some, List, [], ◌∷◌, ◌==◌,
  ltb, leb, if◌then◌else◌, get_elem?, set, replicate,
}

-- The 64 bits that the tool may use: of a thread of the operating system, a team or a task.
pub data Datum : Type 0 where
  thread_datum team_datum task_datum : ℕ → Datum

abbrev pub same_datum : Datum → Datum → Bool
same_datum (thread_datum i) (thread_datum j) = i == j
same_datum (team_datum i) (team_datum j) = i == j
same_datum (task_datum i) (task_datum j) = i == j
same_datum _ _ = false

abbrev pub Data : Type 0
Data = Datum → ℕ

pub data Endpoint : Type 0 where
  scope_begin scope_end : Endpoint

-- `ompt_dependence_t`: an address and a kind.
pub record Dependence : Type 0 where
  pub variable : ℕ
  pub dependence_type : ℕ

-- The arguments of a call of the tool, one constructor for each type of function.
pub data Arguments : Type 0 where
  thread_begin_args : ℕ → Datum → Arguments
  thread_end_args : Datum → Arguments
  parallel_begin_args : Option Datum → Datum → ℕ → ℕ → ℕ → Arguments
  parallel_end_args : Datum → Option Datum → ℕ → ℕ → Arguments
  implicit_task_args : Endpoint → Option Datum → Option Datum → ℕ → ℕ → ℕ → Arguments
  task_create_args : Option Datum → Datum → ℕ → ℕ → Arguments
  task_schedule_args : Option Datum → ℕ → Option Datum → Arguments
  dependences_args : Datum → List Dependence → Arguments
  sync_region_args : ℕ → Endpoint → Option Datum → Option Datum → Arguments

-- The events of XKRT that the bridge asks for.
pub data XkrtEvent : Type 0 where
  thread_start thread_stop task_create task_schedule task_complete task_accesses : XkrtEvent
  barrier taskwait taskgroup : XkrtEvent

-- What the bridge does outside of itself: a call of a callback, by its number and its function; the
-- two functions of the tool's description; the loading of libraries; what it registers with XKRT
-- and with `atexit`.
pub data Act : Type 0 where
  called : ℕ → ℕ → Arguments → Act
  initialized finalized opened closed : ℕ → Act
  bridged : XkrtEvent → Act
  exit_handler : Act

-- TLS_THREAD_BEGUN and TLS_INITIAL_TASK.
pub record Tls : Type 0 where
  pub thread_begun : Bool
  pub initial_task : Bool

pub record Bridge : Type 0 where
  pub callbacks : List ℕ  -- OMPT_CB
  pub enabled : Bool  -- OMPT_ENABLED
  pub tool : Option ℕ  -- OMPT_TOOL
  pub dlhandle : Option ℕ  -- OMPT_TOOL_DLHANDLE
  pub uid : ℕ  -- OMPT_UID
  pub done : Bool  -- the flag inside xkomp_ompt_do_finalize
  pub tls : ℕ → Tls
  pub data_of : Data
  pub acts : List Act  -- the last one first

pub record Team : Type 0 where
  pub id : ℕ
  pub nthreads : ℕ

-- `thread_t`, as far as the bridge reads it; tasks by number.
pub record Thread : Type 0 where
  pub team : Option Team
  pub tid : ℕ
  pub current_task : Option ℕ
  pub implicit_task : ℕ

-- The code of tools: the registrations that `initialize` makes before it returns whether it is
-- active, none where it is NULL; whether there is a `finalize`; the effect of a callback.
pub record ToolCode : Type 0 where
  pub initialize : ℕ → Option (List (ℕ × ℕ) × Bool)
  pub finalizes : ℕ → Bool
  pub react : ℕ → Arguments → Data → Data

-- XKOMP_OMPT_CB_MAX
abbrev pub cb_max : ℕ
cb_max = 38

abbrev or_null : Option ℕ → ℕ
or_null none = 0
or_null (some f) = f

unfoldable pub callback_at : List ℕ → ℕ → ℕ
callback_at cbs which = or_null (get_elem? cbs which)

abbrev pub write_tls : ℕ → Tls → (ℕ → Tls) → ℕ → Tls
write_tls me v tls i = if i == me then v else tls i

abbrev pub write_datum : Datum → ℕ → Data → Data
write_datum d v values e = if same_datum e d then v else values e

-- `data->ptr = NULL`
abbrev pub renewed : Datum → Bridge → Bridge
renewed d s = record s { data_of = write_datum d 0 s.data_of }

-- OMPT_CALL
unfoldable pub ompt_call : ToolCode → ℕ → Arguments → Bridge → Bridge
unfolding callback_at
ompt_call T which args s =
    let f = callback_at s.callbacks which in
    if f == 0
    then s
    else record s { data_of = T.react f args s.data_of; acts = called which f args ∷ s.acts }

-- `ompt_event_supported`
abbrev pub event_supported : ℕ → Bool
event_supported e =
    (e == 1)
    || ((e == 2)
        || ((e == 3)
            || ((e == 4)
                || ((e == 7)
                    || ((e == 5) || ((e == 6) || ((e == 18) || ((e == 23) || (e == 16)))))))))

-- `ompt_set_result_t`, where the program uses it: error, never, always.
abbrev pub set_error : ℕ
set_error = 0

abbrev pub set_never : ℕ
set_never = 1

abbrev pub set_always : ℕ
set_always = 5

-- The enumeration of events has no negative value.
unfoldable pub set_callback : ℕ → ℕ → Bridge → ℕ × Bridge
set_callback which callback s = if (which == 0) || leb cb_max which then (set_error, s) else (
  if callback == 0 then set_always else if event_supported which then set_always else set_never,
  record s { callbacks = set s.callbacks which callback },
)

-- What is returned and what is written through the pointer, if anything; `pointer` is whether there
-- is one.
unfoldable pub get_callback : ℕ → Bool → Bridge → ℕ × Option ℕ
unfolding callback_at
get_callback which pointer s =
    if (which == 0) || (leb cb_max which || not pointer)
    then (0, none)
    else if callback_at s.callbacks which == 0
    then (0, none)
    else (1, some (callback_at s.callbacks which))

-- `xkomp_ompt_get_unique_id`
unfoldable pub get_unique_id : Bridge → ℕ × Bridge
get_unique_id s = (s.uid, record s { uid = (s.uid + 1) % 2 ^ 64 })

-- The static variables of a process that starts.
abbrev pub fresh_bridge : Bridge
fresh_bridge = record {
  callbacks = replicate cb_max 0;
  enabled = false;
  tool = none;
  dlhandle = none;
  uid = 1;
  done = false;
  tls = λ i. record { thread_begun = false; initial_task = false };
  data_of = λ d. 0;
  acts = [];
}
