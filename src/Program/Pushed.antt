-- ===== src/Program/Pushed.antt =====
-- Whose number of threads a region is given: `pushed_num_threads` of src/kmp/fork.cc is a variable
-- of each thread.
use xkomp.Prelude.{
  ℕ, ◌≤◌, ◌≡◌, refl, sym, ap, ◌∙◌, Bool, false, ◌==◌, List, [], ◌∷◌, length, if◌then◌else◌, check,
  leb, Allows, Allows->>=, Allows-any, Allows-map,
}
use xkomp.Prelude.Int.{ℤ}
use xkomp.Env.{Passes}
use xkomp.Env.Init.{EnvVars, region_env}
use xkomp.Team.Region.{Env, Desc, Entry, Event, parallel}
use xkomp.Fork.{
  Wargs, Routine, fork_call_wrapper, microtask_max_args, va_args, push_num_threads, fork_call,
}
use xkomp.Fork.Push.{asks_for, fork_call-asks}
use xkomp.Task.Format.{Formats}
use xkomp.Taskgraph.{taskgraph_begin}
use xkomp.Program.{
  Call, push, fork, alloc, graph_begin, graph_end, Process, new_process, enter_alloc, call, run,
}

-- The number that a thread has pushed since its last fork: only its own calls count.
abbrev pub own_pushed : {V : Type 0} → ℕ → List (Call V) → ℕ → ℕ
own_pushed me [] n = n
own_pushed me (push i k ∷ cs) n = own_pushed me cs (if me == i then push_num_threads k else n)
own_pushed me (fork i given in_team argc va ∷ cs) n = own_pushed me cs (if me == i then 0 else n)
own_pushed me (_ ∷ cs) n = own_pushed me cs n

fork_call-resets :
    {V : Type 0} (spawn : Desc (Wargs V) Routine → Bool × ℤ) (env : Env) (given in_team : Bool)
    (es : List (Entry (Wargs V) Routine)) (pushed argc : ℕ) (va : List V)
    → Allows (λ r. r.2 ≡ 0) (fork_call spawn env given in_team es pushed argc va)
unfolding fork_call
fork_call-resets {V} spawn env given in_team es pushed argc va =
    let Q = λ (r : List (Entry (Wargs V) Routine) × List (Event (Wargs V) Routine) × ℕ). r.2 ≡ 0 in
    Allows->>= Q (check (leb argc microtask_max_args)) _ (Allows-any _) (λ _ _.
      Allows->>= Q (check given) _ (Allows-any _) (λ _ _.
        Allows->>= Q (va_args argc va) _ (Allows-any _) (λ vs _.
          Allows->>= Q
            (parallel spawn env in_team es pushed fork_call_wrapper
              (record { argc = argc; args = vs }))
            _ (Allows-any _) (λ r _. refl))))

module _ (X : Formats) (as_number : Passes → ℕ) {V : Type 0}
    (spawn : Desc (Wargs V) Routine → Bool × ℤ) (v : EnvVars) (me : ℕ) where
  -- The environment is kept, and the thread has pushed `n`.
  abbrev HasPushed : ℕ → Process X as_number spawn → Type 0
  HasPushed n p = (p.xkomp.env ≡ v) × (p.pushed me ≡ n)

  call-HasPushed :
      (c : Call V) (p : Process X as_number spawn) (n : ℕ)
      → HasPushed n p
      → Allows (λ r. HasPushed (own_pushed me (c ∷ []) n) r.0) (call X as_number spawn c p)
  unfolding call
  call-HasPushed (push i k) p n h = (h.0, ap (λ m. if me == i then push_num_threads k else m) h.1)
  call-HasPushed (fork i given in_team argc va) p n h =
      Allows->>= (λ r. HasPushed (if me == i then 0 else n) r.0)
        (fork_call spawn (region_env p.xkomp.env) given in_team p.xkomp.teams (p.pushed i) argc va)
        _
        (fork_call-resets spawn (region_env p.xkomp.env) given in_team p.xkomp.teams (p.pushed i)
          argc va)
        (λ r zero_left. (h.0, rw zero_left (ap (λ m. if me == i then 0 else m) h.1)))
  call-HasPushed (alloc e c place q) p n h =
      Allows->>= (λ r. HasPushed n r.0) (enter_alloc X e c p.xkomp.formats place q) _ (Allows-any _)
        (λ r _. h)
  call-HasPushed (graph_begin graph_id flags) p n h =
      Allows->>= (λ r. HasPushed n r.0)
        (taskgraph_begin (as_number p.xkomp.env.taskgraph_opt) graph_id flags p.xkomp.graph) _
        (Allows-any _) (λ r _. h)
  call-HasPushed graph_end p n h = h

  own_pushed-cons :
      (c : Call V) (cs : List (Call V)) (n : ℕ)
      → own_pushed me (c ∷ cs) n ≡ own_pushed me cs (own_pushed me (c ∷ []) n)
  own_pushed-cons (push i k) cs n = refl
  own_pushed-cons (fork i given in_team argc va) cs n = refl
  own_pushed-cons (alloc e c place q) cs n = refl
  own_pushed-cons (graph_begin graph_id flags) cs n = refl
  own_pushed-cons graph_end cs n = refl

  run-HasPushed :
      (cs : List (Call V)) (p : Process X as_number spawn) (n : ℕ)
      → HasPushed n p
      → Allows (λ r. HasPushed (own_pushed me cs n) r.0) (run X as_number spawn cs p)
  unfolding run
  run-HasPushed [] p n h = h
  run-HasPushed (c ∷ rest) p n h =
      Allows->>= (λ r. HasPushed (own_pushed me (c ∷ rest) n) r.0) (call X as_number spawn c p) _
        (call-HasPushed c p n h)
        (λ (p', now) h'.
          Allows->>= (λ r. HasPushed (own_pushed me (c ∷ rest) n) r.0)
            (run X as_number spawn rest p') _ (run-HasPushed rest p' (own_pushed me (c ∷ []) n) h')
            (λ (p'', later) h''. (h''.0, h''.1 ∙ sym (own_pushed-cons c rest n))))

  -- Behind any calls of any threads, none of which ended the program, a region that the thread starts
  -- outside of a team, with at most 1024 arguments, asks for the number that the thread itself has
  -- pushed since its last region, or for none, and has the arguments of its own call; without memory
  -- for these the program ends.
  pub fork_asks :
      (t : X.Table) (cs : List (Call V)) (given : Bool) (va : List V)
      → length va ≤ microtask_max_args
      → Allows
          (λ (p, done).
            fork_call spawn
              (region_env p.xkomp.env)
              given
              false
              p.xkomp.teams
              (p.pushed me)
              (length va)
              va
            ≡ asks_for spawn (region_env v) given p.xkomp.teams (own_pushed me cs 0) va)
          (run X as_number spawn cs (new_process X as_number spawn t v))
  unfolding new_process
  fork_asks t cs given va few =
      Allows-map (λ r. HasPushed (own_pushed me cs 0) r.0) _
        (λ r h.
          fork_call-asks spawn (region_env r.0.xkomp.env) given r.0.xkomp.teams (r.0.pushed me) va
            few
          ∙ ap (λ u. asks_for spawn (region_env u) given r.0.xkomp.teams (r.0.pushed me) va) h.0
          ∙ ap (λ n. asks_for spawn (region_env v) given r.0.xkomp.teams n va) h.1)
        (run X as_number spawn cs (new_process X as_number spawn t v))
        (run-HasPushed cs (new_process X as_number spawn t v) 0 (refl, refl))
