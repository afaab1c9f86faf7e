-- ===== src/Taskgraph/Loop.antt =====
-- The loops of include/xkomp/xkomp++.h: how often they run the body.
use native.Mathlib.Nat.{div-add-mod', div-le_self, mod-eq_of_lt}
use mathlib.Core.List.{append_assoc, append-nil}
use xkomp.Prelude.{
  ℕ, zero, suc, ◌+◌, ◌*◌, ◌/◌, ◌%◌, ◌≤◌, ◌<◌, ◌≡◌, refl, ap, ◌∙◌, arith, true, some, List, [], ◌∷◌,
  ◌++◌, replicate, ok, ltb, lt→ltb, ltb_ge,
}
use xkomp.Prelude.Int.{ℤ}
use xkomp.Taskgraph.{
  Flags, Call, record_stop, replay, body, epilogue, LoopState, size_mod, int_mod, at_least_one,
  loop_turn, loop_from, pragma_taskgraphloop, plain_loop, plain_rest, pragma_taskgraphloop_n,
}
use xkomp.Taskgraph.Replay.{supported, instance_calls, pragma_taskgraph_lem}

-- The iterations that some calls run: a call of the body is one, made or recorded, and a replay is
-- as many as were recorded.
abbrev pub issued : ℕ → List Call → ℕ
issued u [] = 0
issued u (body ∷ cs) = 1 + issued u cs
issued u (replay ∷ cs) = u + issued u cs
issued u (_ ∷ cs) = issued u cs

issued-append : (u : ℕ) (xs ys : List Call) → issued u (xs ++ ys) ≡ issued u xs + issued u ys
issued-append u [] ys = omega arith
issued-append u (body ∷ xs) ys = omega (arith, issued-append u xs ys)
issued-append u (replay ∷ xs) ys = omega (arith, issued-append u xs ys)
issued-append u (_ ∷ xs) ys = issued-append u xs ys

issued-replicate : (u n : ℕ) → issued u (replicate n body) ≡ n
issued-replicate u zero = refl
issued-replicate u (suc n) = omega (arith, issued-replicate u n)

-- Every instance runs `u` iterations.
issued-instance_calls :
    (passes u rc : ℕ) → issued u (instance_calls passes (replicate u body) rc) ≡ u
issued-instance_calls passes u zero =
    omega (arith, issued-append u (replicate u body) (record_stop ∷ []), issued-replicate u u)
issued-instance_calls passes u (suc zero) = omega arith
issued-instance_calls passes u (suc (suc rc)) = omega arith

-- The loop's variables after one turn, and after `q` turns.
abbrev pub next : ℕ → ℕ → LoopState → LoopState
next passes u s = record {
  graph = record { rc = suc s.graph.rc };
  calls =
      s.calls
      ++ (instance_calls passes (replicate u body) s.graph.rc ++ epilogue s.inst (s.done + u) ∷ []);
  done = s.done + u;
  inst = s.inst + 1;
}

abbrev pub after : ℕ → ℕ → ℕ → LoopState → LoopState
after passes u zero s = s
after passes u (suc q) s = after passes u q (next passes u s)

issued-next :
    (passes u : ℕ) (s : LoopState) → issued u (next passes u s).calls ≡ issued u s.calls + u
issued-next passes u s = omega (
  arith,
  issued-append u s.calls
      (instance_calls passes (replicate u body) s.graph.rc ++ epilogue s.inst (s.done + u) ∷ []),
  issued-append u (instance_calls passes (replicate u body) s.graph.rc)
      (epilogue s.inst (s.done + u) ∷ []),
  issued-instance_calls passes u s.graph.rc,
)

zero_add : (q : ℕ) → 0 + q ≡ q
zero_add q = omega arith

one_more : (q u : ℕ) → suc q * u ≡ q * u + u
one_more q u = omega arith

after-counts :
    (passes u q : ℕ) (s : LoopState)
    → (issued u (after passes u q s).calls ≡ issued u s.calls + q * u)
      × ((after passes u q s).graph.rc ≡ s.graph.rc + q)
      × ((after passes u q s).done ≡ s.done + q * u)
after-counts passes u zero s = (omega arith, omega arith, omega arith)
after-counts passes u (suc q) s =
    let (calls, rc, done) = after-counts passes u q (next passes u s) in
    let turn : suc q * u ≡ q * u + u = one_more q u in
    (
      omega (arith, calls, turn, issued-next passes u s),
      omega (arith, rc),
      omega (arith, done, turn),
    )

module _ (passes : ℕ) (graph_id : ℤ) (flags : Flags) (fine : supported graph_id flags ≡ true)
    (u : ℕ) where
  loop_turn-next :
      (s : LoopState)
      → s.done + u < size_mod
      → s.inst + 1 < size_mod
      → suc s.graph.rc < int_mod
      → loop_turn passes graph_id flags u s ≡ ok (next passes u s)
  unfolding loop_turn
  loop_turn-next s w i g =
      rw
        (
          pragma_taskgraph_lem passes graph_id flags (replicate u body) s.graph fine g,
          mod-eq_of_lt w,
          mod-eq_of_lt i,
        )
        refl

  -- Where `q` turns reach the bound, and no counter wraps, fuel for one turn more is enough.
  loop_from-after :
      (q fuel whole : ℕ) (s : LoopState)
      → s.done + q * u ≡ whole
      → 0 < u
      → whole < size_mod
      → s.inst + q < size_mod
      → s.graph.rc + q < int_mod
      → q < fuel
      → loop_from fuel passes graph_id flags u (λ _ d. ltb d whole) s
        ≡ ok (some (after passes u q s))
  unfolding loop_from
  loop_from-after q zero whole s e pos_u w i g enough = absurd (omega arith)
  loop_from-after zero (suc fuel) whole s e pos_u w i g enough =
      rw (ltb_ge s.done whole (omega arith)) refl
  loop_from-after (suc q) (suc fuel) whole s e pos_u w i g enough =
      let turn : suc q * u ≡ q * u + u = one_more q u in
      rw
        (
          lt→ltb s.done whole (omega (arith, turn)),
          loop_turn-next s (omega (arith, turn)) (omega arith) (omega arith),
        )
        (loop_from-after q fuel whole (next passes u s) (omega (arith, turn)) pos_u w (omega arith)
          (omega arith) (omega arith))

unchanged : (n : ℕ) (s : LoopState) → s.done ≡ n → s ≡ record s { calls = s.calls ++ []; done = n }
unchanged n s h = rw (append-nil s.calls, ← h) refl

plain_loop_lem :
    (r fuel n : ℕ) (s : LoopState)
    → s.done + r ≡ n
    → r ≤ fuel
    → plain_loop fuel n s ≡ record s { calls = s.calls ++ replicate r body; done = n }
unfolding plain_loop
plain_loop_lem zero zero n s e enough = unchanged n s (omega (arith, e))
plain_loop_lem zero (suc fuel) n s e enough =
    rw (ltb_ge s.done n (omega (arith, e))) (unchanged n s (omega (arith, e)))
plain_loop_lem (suc r) zero n s e enough = absurd (omega arith)
plain_loop_lem (suc r) (suc fuel) n s e enough =
    let one : LoopState = record s { calls = s.calls ++ body ∷ []; done = s.done + 1 } in
    rw (lt→ltb s.done n (omega (arith, e))) (
      plain_loop_lem r fuel n one (omega (arith, e)) (omega arith)
      ∙ ap (λ cs. record s { calls = cs; done = n })
          (append_assoc s.calls (body ∷ []) (replicate r body)))

abbrev pub start : LoopState
start = record { graph = record { rc = 0 }; calls = []; done = 0; inst = 0 }

at_least_one-pos : (unroll : ℕ) → 0 < at_least_one unroll
at_least_one-pos unroll = ground arith

-- `pragma_omp_taskgraphloop_n` on a new graph of id 0 with no clause, for any `unroll` and any
-- count `n` below 2 ^ 64 with fewer than 2 ^ 31 instances: it returns `n`, and has run exactly `n` iterations, `n / unroll`
-- instances and the rest as plain calls of the body, where an `unroll` of 0 counts as 1.
pub pragma_taskgraphloop_n_exact :
    (passes : ℕ) (graph_id : ℤ) (flags : Flags) (unroll n : ℕ)
    → supported graph_id flags ≡ true
    → n < size_mod
    → n / at_least_one unroll < int_mod
    → let u = at_least_one unroll in
      (s : LoopState) × (pragma_taskgraphloop_n passes graph_id flags unroll n (record { rc = 0 })
        ≡ ok (some s))
      × (s.done ≡ n)
      × (issued u s.calls ≡ n)
      × (s.graph.rc ≡ n / u)
      × (s.calls ≡ (after passes u (n / u) start).calls ++ replicate (n % u) body)
unfolding pragma_taskgraphloop_n pragma_taskgraphloop plain_rest
pragma_taskgraphloop_n_exact passes graph_id flags unroll n fine w g =
    let u = at_least_one unroll in
    let q = n / u in
    let pos_u : 0 < u = at_least_one-pos unroll in
    let split : q * u + n % u ≡ n = div-add-mod' n u in
    let few : q ≤ n = div-le_self n u in
    let looped =
      loop_from-after passes graph_id flags fine u q (suc n) (q * u) start (omega arith) pos_u
        (omega (arith, split)) (omega arith) (omega arith) (omega arith) in
    let (calls, rc, done) = after-counts passes u q start in
    let last : LoopState = after passes u q start in
    let rest : List Call = replicate (n % u) body in
    (
      record last { calls = last.calls ++ rest; done = n },
      rw looped (
          ap (λ s. ok (some s))
            (plain_loop_lem (n % u) n n last (omega (arith, done, split)) (omega (arith, split)))),
      refl,
      omega (arith, split, calls, issued-append u last.calls rest, issued-replicate u (n % u)),
      rc ∙ zero_add q,
      refl,
    )
