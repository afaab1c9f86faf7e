-- ===== src/Ompt/System/Calls.antt =====
-- Which functions of the tool src/ompt/ompt.cc calls, and with what arguments.
use xkomp.Prelude.{ℕ, ◌≡◌, refl, false, Option, some, List, ◌∷◌, if_false, inl, ◌==◌, Returns}
use xkomp.Ompt.{Bridge, Thread, ToolCode, callback_at, called, ompt_call, task_schedule_args, Team}
use xkomp.Ompt.Tasks.{on_task_schedule, datum_of_task, task_switch}
use xkomp.Ompt.Regions.{parallel_begin, parallel_end, implicit_task_begin, implicit_task_end}
use xkomp.Ompt.Lifecycle.{do_finalize}
use xkomp.Ompt.System.{Action, run}
use xkomp.Ompt.System.View.{View, view}
use xkomp.Ompt.System.Preserve.{run-KeepsAll, do_finalize-Keeps}
use xkomp.Ompt.System.Finish.{Active, do_finalize-Ended}

-- Each function that has been called is one that the tool registered under an event for which the
-- bridge answers always, and has been given the arguments of that event.
abbrev pub WellCalled : View → Type 0
WellCalled v = v.misfits ≡ 0

-- A run returns, and every call of a function of the tool in it is under the number of an event that
-- the bridge answers always for, with the arguments of that event's type, where this holds of the
-- calls before it.
pub run-WellCalled :
    (T : ToolCode) (actions : List Action) (s : Bridge)
    → WellCalled (view 0 s)
    → Returns (λ r. WellCalled (view 0 r)) (run T actions s)
run-WellCalled T =
    run-KeepsAll T 0 WellCalled (λ me k v b p. p) (λ me b v p. p) (λ me v b p. p)
      (λ v e d l f c p. p)

do_finalize-callbacks :
    (T : ToolCode) (me : ℕ) (thread : Option Thread) (s : Bridge)
    → (do_finalize T me thread s).callbacks ≡ s.callbacks
do_finalize-callbacks T me thread s =
    do_finalize-Keeps T 0 (λ v. v.callbacks ≡ s.callbacks) (λ me k v b p. p) (λ me b v p. p)
      (λ me v b p. p) (λ v e d l f c p. p) me thread s refl

schedule_acts :
    (T : ToolCode) (prev next : Option ℕ) (s' s : Bridge)
    → s'.callbacks ≡ s.callbacks
    → (callback_at s.callbacks 6 == 0) ≡ false
    → (on_task_schedule T prev next s').acts
      ≡ called 6
          (callback_at s.callbacks 6)
          (task_schedule_args (datum_of_task prev) task_switch (datum_of_task next))
        ∷ s'.acts
unfolding on_task_schedule ompt_call callback_at
schedule_acts T prev next s' s e h = rw (e, h) refl

-- Behind the end of an active tool the program's own events of parallel regions and implicit tasks
-- are silent; but a function that was registered for the scheduling of tasks, an event of XKRT, is
-- called as before, when all libraries have been closed.
pub late_calls :
    (T : ToolCode) (me t : ℕ) (thread : Option Thread) (s : Bridge) (prev next : Option ℕ)
    (team : Team) (th : Thread) (n codeptr : ℕ)
    → Active t (view 0 s)
    → (callback_at s.callbacks 6 == 0) ≡ false
    → (let s' = do_finalize T me thread s in
        (parallel_begin T team (some th) n codeptr s' ≡ s')
        × (parallel_end T team (some th) codeptr s' ≡ s')
        × (implicit_task_begin T th s' ≡ s')
        × (implicit_task_end T th s' ≡ s')
        × ((view 0 s').opens ≡ (view 0 s').closes)
        × ((on_task_schedule T prev next s').acts
            ≡ called 6
                (callback_at s.callbacks 6)
                (task_schedule_args (datum_of_task prev) task_switch (datum_of_task next))
              ∷ s'.acts))
unfolding parallel_begin parallel_end implicit_task_begin implicit_task_end on_task_schedule
late_calls T me t thread s prev next team th n codeptr active registered =
    let ended = do_finalize-Ended T 0 t me thread s (inl active) in
    let off : (do_finalize T me thread s).enabled ≡ false = ended.1 in
    (
      if_false _ _ _ off,
      if_false _ _ _ off,
      if_false _ _ _ off,
      if_false _ _ _ off,
      ended.4,
      schedule_acts T prev next (do_finalize T me thread s) s (do_finalize-callbacks T me thread s)
          registered,
    )
