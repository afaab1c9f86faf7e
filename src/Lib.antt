-- ===== src/Lib.antt =====
-- A verification library for XKOMP, an OpenMP runtime on top of XKRT: the entry points that a
-- compiler calls, from src/xkomp, src/kmp and src/*.cc, with include/xkomp.
--
-- Each call is a function on the state that it reads and changes. A call that can end the program
-- returns an outcome: a value, or the way in which the process dies (Prelude/Faults: LOGGER_FATAL, a
-- failed assertion, or an operation that C++ leaves undefined). Assertions are kept, as in a build
-- without NDEBUG, but for those on what cannot be null here: the context from xkomp_get, and addresses
-- inside a task that exists. What XKRT does is a parameter with the laws that the code relies on, and the calls
-- made to it are recorded as lists, in order. Addresses and sizes are numbers below 2 ^ 64, a null
-- pointer is 0; `int` values are integers, with the conversions to and from 32-bit words written out.
--
-- The parts:
-- - Prelude: names passed on, tests on numbers, lists, integers and words, faults, bit masks.
-- - Device (src/device.cc): the two numberings of devices. xkomp_X is X here; omp_device_id_to_xkomp
--   keeps its name. Device/Numbering has the proofs.
-- - Team (src/xkomp/parallel.cc): Team/Places for OMP_PLACES and OMP_PROC_BIND, Team/Region for
--   xkomp_parallel over the cache of teams in xkomp_t (include/xkomp/xkomp.h). A region is started by
--   `parallel`; its top-level branch is `top_region`, made of the search `find_team`, `create_region`
--   and the dispatch. `spawn` stands for what XKRT's team_create leaves in a team. Team/Region/Cache,
--   Search, Reuse, Runs and Limit have the proofs.
-- - Task (src/kmp/task.cc): Task/Access for the lists of dependences and access clauses (types of
--   include/xkomp/kmp.h) and their translation to accesses in the slots of a task, where a slot may be
--   unconstructed; Task/Layout for the sizes and addresses inside an allocation; Task/Format for
--   get_or_create_loc_format over XKRT's table of formats, a parameter, with Task/Format/Register for
--   the formats that are registered at the start (src/kmp/formats.cc) and Task/Format/Locked for
--   threads that call it at the same time, one step after another around XKRT's spinlock;
--   Task/Alloc for task_alloc and
--   its four entry points; Task/Submit for __kmpc_omp_task, its versions with dependences, the waits
--   and the body of a task. The modules below them have the proofs.
-- - Env (src/env.cc): taskgraph_opt is xkomp_env_init_parse_taskgraph_opt, with Env/Tokens for what
--   strtok returns and Env/Passes for what the tokens select; Env/Init is xkomp_env_init, and
--   Env/Init/Defaults what a region makes of it. The names of the passes are a parameter.
-- - Fork (src/kmp/fork.cc, src/kmp/arch): `fork_call` is __kmpc_fork_call, which starts a region with
--   `parallel`, `wrapper` is what each thread of the team runs, and `invoke_generic` and
--   `invoke_libffi` are the two forms of __kmp_invoke_microtask. `argc` is a natural number. The
--   proofs are in Fork/Microtask and Fork/Push.
-- - Gomp (src/gomp): `gomp_parallel` is GOMP_parallel over the model of regions; Gomp/Regions has the
--   proof.
-- - Sync (src/kmp/master.cc, single.cc, barrier.cc, thread.cc, for.cc, allocator.cc): kmpc_X is
--   __kmpc_X; the calling thread is a parameter, none where XKRT knows no thread. Sync/Members counts
--   the threads of a team that run a region, and Sync/Schedules has the kinds of schedule.
-- - Target (src/kmp/target/api.cc, the end of src/device.cc): a copy is the call that is made to XKRT;
--   `kmp_target_memcpy_async` is __kmp_omp_target_memcpy_async. Target/Copies compares the two forms.
-- - Api (src/api.cc): xkomp_get and the functions on threads; Api/Threads is about their agreement with
--   regions. Api/First is xkomp_get again as the steps of many threads, with Api/First/Early and
--   Api/First/Late for calls that come before and behind the end of the first one.
-- - Program (include/xkomp/xkomp.h): `Xkomp` is xkomp_t with all its parts, `Process` adds the
--   pushed_num_threads of each thread, `new_process` is what xkomp_get leaves, and a run is a list of
--   calls by any threads. Program/Sound and Program/Finish put the invariants of regions and of formats
--   together over runs, Program/Room counts the numbers of threads in the cache, and Program/Pushed is
--   about the thread-local number. The waits and submissions of tasks change no part of the context.
-- - Ompt (src/ompt/ompt.cc, the bridge between XKRT's events and a tool): the static variables are the
--   record `Bridge`, with the thread-local ones as a function of the thread of the operating system;
--   what the bridge does outside is the list `acts` in it. on_X keep their names, xkomp_ompt_X is X.
--   Ompt/Threads, Tasks and Regions have the events, Ompt/Queries what the tool can ask, Ompt/Discovery
--   the search for a tool and Ompt/Lifecycle its start and end. Ompt/System is a run: calls of these
--   functions one after another, by any threads. Its proofs go through Ompt/System/View, the state with
--   its acts counted: Quiet shows what each call does to the view, Preserve turns that into an induction
--   over runs, and Balance, Finish, Connect and Calls use it. Ompt/System/Teams is about the threads of a
--   region of Fork in any order among each other (`Shuffle`); Running is which threads run, by the
--   calls of a run. Ompt/Table, Ompt/Tasks/Told and
--   Ompt/Queries/Enumeration have the other proofs.
-- - Taskgraph (src/xkomp/taskgraph.cc, include/xkomp/xkomp++.h): pragma_omp_X is pragma_X, and
--   `taskgraph_begin` and `taskgraph_end` are the functions that it calls, over the state of the one
--   graph that is supported. The loops run on fuel; for pragma_omp_taskgraphloop_n the fuel is `n + 1`
--   turns, and Taskgraph/Loop shows that it is enough. Taskgraph/Replay is about single instances.
-- - Stencil (extensions/interfaces/stencil-1d/main-access.cc): the loops of the program over its two
--   arrays, with the floats as a parameter and addresses as numbers of cells in the one allocation.
--   Stencil/Tasks has `main_access`, the whole computation, with the tasks in an order that is given,
--   and `allowed`, the orders in which a task runs behind the earlier ones whose clauses conflict with
--   its own; that is what XKRT keeps. Stencil/Memory and Cells say what the loops leave, Stencil/Line
--   what the line of cells should be, Tasks/Reached and Preserve have the invariant of the tasks, and
--   Tasks/Order compares the program with the line.
-- - Examples: the theorems at concrete inputs, with a table of formats that satisfies the laws.
--
-- Regions and tasks interact with the other parts through values: a region takes the environment, a
-- task allocation takes the device numbering and the formats, and a submission takes the task that an
-- allocation gave. The loops over lists are recursion on the lists that the code counts through.
--
-- Not modelled: the text of warnings, the cut of a label at the size of its field, gtid arguments that the code does not read, the
-- registration of callbacks by a tool inside a callback, the places of the program where OMPT events are
-- emitted but those of a region and of its implicit tasks, functions with an empty or a constant body,
-- time, and the parts of the program that no module names.
pub mod Prelude
pub mod Device
pub mod Team
pub mod Task
pub mod Taskgraph
pub mod Env
pub mod Fork
pub mod Ompt
pub mod Sync
pub mod Gomp
pub mod Target
pub mod Api
pub mod Program
pub mod Stencil
pub mod Examples
