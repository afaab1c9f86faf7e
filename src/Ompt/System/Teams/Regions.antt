-- ===== src/Ompt/System/Teams/Regions.antt =====
-- A region of src/kmp/fork.cc, as the bridge of src/ompt/ompt.cc sees its threads.
use xkomp.Prelude.{
  ℕ, ◌≡◌, refl, arith, sym, subst, ◌∙◌, Bool, true, false, ◌&&◌, Option, some, List, [], ◌∷◌, ◌++◌,
  ◌==◌, ltb, if◌then◌else◌, if_both, Bool-cases, inl, inr, Outcome, ok, Returns, >>=-eq-ok,
  ok-injective,
}
use xkomp.Fork.{
  ThreadEvent, implicit_task_begin, microtask, team_barrier, implicit_task_end, wrapper, Wargs,
}
use xkomp.Ompt.{Bridge, Thread, ToolCode, Endpoint, scope_begin, scope_end}
use xkomp.Ompt.System.{
  Action, at_barrier, implicit_begin, implicit_end, create, schedule, complete, accesses,
  at_taskwait, at_taskgroup, start, stop, region_begin, region_end, finalize, run,
}
use xkomp.Ompt.System.Teams.Orders.{
  Shuffle, all_inner, tally, run-Told, Shuffle-inner, Shuffle-tally,
}
use xkomp.Ompt.System.View.{suc_if}
use xkomp.Ompt.System.Teams.{Told, is_inner, reports}

-- What a thread does outside of the reports of its implicit task: the region's own code.
abbrev pub is_body : Action → Bool
is_body (implicit_begin thread) = false
is_body (implicit_end thread) = false
is_body a = is_inner a

abbrev pub all_body : List Action → Bool
all_body [] = true
all_body (a ∷ rest) = is_body a && all_body rest

is_body-silent :
    (k : ℕ) (scope : Endpoint) (a : Action)
    → is_body a ≡ true
    → (is_inner a ≡ true) × (reports k scope a ≡ false)
is_body-silent k scope (start me thread) h = cc
is_body-silent k scope (stop me thread) h = cc
is_body-silent k scope (create task) h = (refl, refl)
is_body-silent k scope (schedule prev next) h = (refl, refl)
is_body-silent k scope complete h = (refl, refl)
is_body-silent k scope (accesses allocated task told) h = (refl, refl)
is_body-silent k scope (at_barrier team thread end) h = (refl, refl)
is_body-silent k scope (at_taskwait thread task end) h = (refl, refl)
is_body-silent k scope (at_taskgroup thread task end) h = (refl, refl)
is_body-silent k scope (region_begin team thread n codeptr) h = cc
is_body-silent k scope (region_end team thread codeptr) h = cc
is_body-silent k scope (implicit_begin thread) h = cc
is_body-silent k scope (implicit_end thread) h = cc
is_body-silent k scope (finalize me thread) h = cc

body-append :
    (k : ℕ) (scope : Endpoint) (body rest : List Action)
    → all_body body ≡ true
    → (tally k scope (body ++ rest) ≡ tally k scope rest)
      × (all_inner (body ++ rest) ≡ all_inner rest)
body-append k scope [] rest h = (refl, refl)
body-append k scope (a ∷ body) rest h =
    let (inner, silent_a) = is_body-silent k scope a (ground arith) in
    let (told, inners) = body-append k scope body rest (ground arith) in
    (rw silent_a told, rw inner inners)

-- What a thread's part of a region is for the bridge, with the code that its microtask runs.
abbrev pub actions_of : {V : Type 0} → Thread → List Action → ThreadEvent V → List Action
actions_of thread body implicit_task_begin = implicit_begin thread ∷ []
actions_of thread body (microtask called) = body
actions_of thread body team_barrier =
    at_barrier thread.team (some thread) scope_begin
    ∷ at_barrier thread.team (some thread) scope_end
    ∷ []
actions_of thread body implicit_task_end = implicit_end thread ∷ []

abbrev pub all_actions : {V : Type 0} → Thread → List Action → List (ThreadEvent V) → List Action
all_actions thread body [] = []
all_actions thread body (e ∷ es) = actions_of thread body e ++ all_actions thread body es

-- What follows the code of the region.
abbrev tail_of : Thread → List Action
tail_of thread =
    at_barrier thread.team (some thread) scope_begin
    ∷ at_barrier thread.team (some thread) scope_end
    ∷ implicit_end thread
    ∷ []

module _ {V : Type 0} (T : ToolCode) (thread : ℕ → Thread) (body : ℕ → List Action)
    (numbered : (i : ℕ) → (thread i).implicit_task ≡ i)
    (bodies : (i : ℕ) → all_body (body i) ≡ true) where
  abbrev part : Option (List V) → ℕ → List Action
  part called i =
      all_actions (thread i) (body i)
        (implicit_task_begin ∷ microtask called ∷ team_barrier ∷ implicit_task_end ∷ [])

  part-tally :
      (k : ℕ) (scope : Endpoint) (called : Option (List V)) (i : ℕ)
      → (tally k scope (part called i) ≡ suc_if (i == k) 0) × (all_inner (part called i) ≡ true)
  part-tally k scope_begin called i =
      let (told, inners) = body-append k scope_begin (body i) (tail_of (thread i)) (bodies i) in
      (rw (told, numbered i) refl, inners)
  part-tally k scope_end called i =
      let (told, inners) = body-append k scope_end (body i) (tail_of (thread i)) (bodies i) in
      (told ∙ rw (numbered i) refl, inners)

  abbrev team : ℕ → Option (List V) → ℕ → List Action
  team n called i = if ltb i n then part called i else []

  team-tally :
      (k n : ℕ) (scope : Endpoint) (called : Option (List V)) (j : ℕ)
      → tally k scope (team n called j) ≡ suc_if (ltb j n && (j == k)) 0
  team-tally k n scope called j = elim (Bool-cases (ltb j n)) [
    | inl e ↦ rw e (part-tally k scope called j).0
    | inr e ↦ rw e refl
  ]

  team-inner : (n : ℕ) (called : Option (List V)) (i : ℕ) → all_inner (team n called i) ≡ true
  team-inner n called i =
      if_both (λ l. all_inner l ≡ true) (ltb i n) (part called i) []
        (part-tally 0 scope_begin called i).1 refl

  called-Told :
      (k n m : ℕ) (scope : Endpoint) (called : Option (List V)) (merged : List Action) (s : Bridge)
      → Shuffle (team n called) merged
      → Told k scope m s
      → Returns (Told k scope (suc_if (ltb k n) m)) (run T merged s)
  called-Told k n m scope called merged s order h =
      let one : tally k scope merged ≡ suc_if (ltb k n && (k == k)) 0 =
        Shuffle-tally k scope k (team n called) merged order
          (λ j ne. team-tally k n scope called j ∙ rw ne (ground arith))
        ∙ team-tally k n scope called k in
      subst (λ c. Returns (Told k scope c) (run T merged s)) (ground arith)
        (run-Told T k scope m merged s
          (Shuffle-inner (team n called) merged order (team-inner n called)) h)

  -- The threads 0 to n - 1 of a region run the wrapper of src/kmp/fork.cc, each with an implicit task
  -- of its own and any code in it that starts and stops no threads, opens no region within, makes no
  -- reports of implicit tasks and does not end the tool: it creates, schedules and completes tasks,
  -- tells of their accesses, and waits. In every order in which the bridge sees their calls it
  -- returns, and an active tool with a function for implicit tasks is told of one begin and one end
  -- more of the task of each of these threads, and of no other.
  pub team-Told :
      (invoke : ℕ → List V → Outcome (Option (List V))) (w : Wargs V) (evs : List (ThreadEvent V))
      (k n m : ℕ) (scope : Endpoint) (merged : List Action) (s : Bridge)
      → wrapper invoke w ≡ ok evs
      → Shuffle (λ i. if ltb i n then all_actions (thread i) (body i) evs else []) merged
      → Told k scope m s
      → Returns (Told k scope (suc_if (ltb k n) m)) (run T merged s)
  unfolding wrapper
  team-Told invoke w evs k n m scope merged s ran order h =
      let (called, invoked, e) = >>=-eq-ok (invoke w.argc w.args) _ ran in
      called-Told k n m scope called merged s
        (subst
          (λ l. Shuffle (λ i. if ltb i n then all_actions (thread i) (body i) l else []) merged)
          (sym (ok-injective e)) order)
        h
