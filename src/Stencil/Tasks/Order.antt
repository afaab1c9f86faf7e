-- ===== src/Stencil/Tasks/Order.antt =====
-- What the program of the stencil computes, with its tasks in any order that the clauses allow.
use xkomp.Prelude.{
  lt→ltb, true, ◌^◌, ℕ, suc, ◌+◌, ◌-◌, ◌*◌, ◌/◌, ◌%◌, ◌≤◌, ◌<◌, ◌≡◌, inl, inr, sym, ap, ◌∙◌, subst,
  arith, ◌==◌, ==_iff, Bool-cases, List, [], ◌∷◌, ok, ◌>>=◌, Returns, Returns->>=,
}
use xkomp.Stencil.{size_of, Floats, range_from, Memory, Layout, first_layout, cells, initial}
use xkomp.Stencil.Memory.{has-range_from, Placed}
use xkomp.Stencil.Line.{Holds, device_of, blocks, eq_false}
use xkomp.Stencil.Line.Start.{is_inside, line, Started, initial-Started, first_layout-Placed}
use xkomp.Stencil.Tasks.{
  layout_at, Ended, count_task, allowed, ended_after, all_ended, run_tasks, main_access,
}
use xkomp.Stencil.Tasks.Ready.{all_of-has, array, array_cases}
use xkomp.Stencil.Tasks.Reached.{ghost_in, Reached, line-ends}
use xkomp.Stencil.Tasks.Preserve.{task-Left, task-Reached}

module _ (A : Floats) (l : Layout) (p : Placed A l) (nd bs : ℕ) (some_cells : 0 < bs)
    (size : l.n ≡ nd * bs) where
  tasks-Reached :
      (js : List ℕ) (ended : Ended) (mem : Memory A)
      → allowed l nd bs js ended ≡ true
      → Reached A l p nd bs some_cells size ended mem
      → Returns
          (Reached A l p nd bs some_cells size (ended_after js ended))
          (run_tasks A l bs js ended mem)
  unfolding run_tasks allowed
  tasks-Reached [] ended mem h r = r
  tasks-Reached (j ∷ js) ended mem h r =
      let below : j < nd = ground arith in
      Returns->>= (Reached A l p nd bs some_cells size (ended_after js (count_task ended j)))
        (cells A (layout_at l (suc (ended j))) (range_from (j * bs) bs) mem)
        (run_tasks A l bs js (count_task ended j))
        (task-Left A l p nd bs some_cells size (ended j) j mem below)
        (λ mem' s.
          tasks-Reached js (count_task ended j) mem' (ground arith)
            (task-Reached A l p nd bs some_cells size j ended mem mem' below (ground arith) r s))

  Started-Reached :
      (mem : Memory A) → Started A l mem → Reached A l p nd bs some_cells size (λ j. 0) mem
  unfolding layout_at
  Started-Reached mem s = record {
    held = λ k t h lo hi.
        let start : t ≡ 0 = omega arith in
        let g = p.ghost_v in
        subst (λ t. mem (array l t + k) ≡ line A l.n l.ghost t (k + l.ghost)) (sym start)
          (ap mem (omega arith) ∙ (s (k + l.ghost) (omega arith)).1);
    near = λ k k' h h' left right. omega arith;
    ends =
        λ t i h out. elim (array_cases l t 0) [ inl v ↦ rw v (s i h).1 | inr u ↦ rw u (s i h).0 ];
  }

  all-Holds :
      (t : ℕ) (ended : Ended) (mem : Memory A)
      → all_ended nd t ended ≡ true
      → Reached A l p nd bs some_cells size ended mem
      → Holds A l.n l.ghost t (layout_at l t).v mem
  all-Holds t ended mem h r i lt = elim (Bool-cases (is_inside l.n l.ghost i)) [
    | inl in_line ↦
        let left : l.ghost ≤ i = ground arith in
        let right : i < l.n + l.ghost = ground arith in
        let g = ghost_in A l p nd bs some_cells size t in
        let d = device_of (i - l.ghost) nd bs (rw (← size) (omega arith)) in
        let done =
          all_of-has (λ j. ended j == t) ((i - l.ghost) / bs) (range_from 0 nd) h
            (has-range_from ((i - l.ghost) / bs) 0 nd (omega arith) (omega arith)) in
        let e : ended ((i - l.ghost) / bs) ≡ t = (==_iff _ t).0 done in
        ap mem (omega arith)
        ∙ r.held (i - l.ghost) t (omega arith) (omega arith) (omega arith)
        ∙ ap (line A l.n l.ghost t) (omega arith)
    | inr out ↦ r.ends t i lt out ∙ sym (line-ends A l p nd bs some_cells size t i out)
  ]

-- On at least one device, with a positive number of cells that the number of devices divides, a size
-- of the allocation that is an int, memory from `malloc`, and the tasks of all the sweeps in any order
-- that the access clauses allow, the program accesses no address out of its allocation, and `v` ends
-- with the line of the sequential definition after as many sweeps, from the left boundary to the
-- right one.
pub main_access_lem :
    (A : Floats) (nd n ghost sweeps : ℕ) (js : List ℕ) (mem : Memory A)
    → 0 < nd
    → 0 < n
    → n % nd ≡ 0
    → size_of n ghost < 2 ^ 31
    → allowed (first_layout n ghost) nd (n / nd) js (λ j. 0) ≡ true
    → all_ended nd sweeps (ended_after js (λ j. 0)) ≡ true
    → Returns (λ r. Holds A n ghost sweeps r.0.v r.1) (main_access A nd n ghost sweeps js true mem)
unfolding main_access
main_access_lem A nd n ghost sweeps js mem devices some_cells divides int order complete =
    let whole = blocks n nd divides devices some_cells in
    let l = first_layout n ghost in
    let p = first_layout-Placed A n ghost in
    rw (eq_false nd 0 devices, divides, lt→ltb (size_of n ghost) (2 ^ 31) int)
      (Returns->>= _ (initial A n ghost mem)
        (λ mem'.
          run_tasks A l (n / nd) js (λ j. 0) mem' >>= λ mem''. ok (layout_at l sweeps, mem''))
        (initial-Started A n ghost mem)
        (λ mem' s.
          Returns->>= (λ r. Holds A n ghost sweeps r.0.v r.1)
            (run_tasks A l (n / nd) js (λ j. 0) mem') (λ mem''. ok (layout_at l sweeps, mem''))
            (tasks-Reached A l p nd (n / nd) whole.0 whole.1 js (λ j. 0) mem' order
              (Started-Reached A l p nd (n / nd) whole.0 whole.1 mem' s))
            (λ mem'' r.
              all-Holds A l p nd (n / nd) whole.0 whole.1 sweeps (ended_after js (λ j. 0)) mem''
                complete r)))
