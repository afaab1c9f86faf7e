-- ===== src/Api/First/Late.antt =====
-- Threads that call when the first one is through.
use xkomp.Prelude.{
  ℕ, ◌≡◌, refl, sym, ap, ◌∙◌, subst, arith, true, Bool-cases, inl, inr, some, List, [], ◌∷◌, ◌++◌,
  replicate, take, drop, ◌==◌, ==_iff, if_split, ok, ◌>>=◌, Returns, Returns->>=, Returns-map,
}
use xkomp.Api.First.{
  Progress, calling, seen_null, building, given, Contexts, set_up_steps, test_pointer, build_step,
  get_step, Threads, stepped, interleave, all_calling,
}
use xkomp.Api.First.Early.{Building, building_after, interleave-append}

-- A thread that has not called, or is about to return, or has been given the first context.
abbrev pub AtFirst : Progress → Type 0
AtFirst calling = Unit {0}
AtFirst seen_null = ⊥
AtFirst (building []) = Unit {0}
AtFirst (building (a ∷ left)) = ⊥
AtFirst (given c) = c ≡ 0

record Ready (w : Threads) : Type 0 where
  pointer : w.contexts.pointer ≡ some 0
  built : w.contexts.built ≡ set_up_steps ∷ []
  all_first : (j : ℕ) → AtFirst (w.points j)

-- A step changes no context, and leaves the thread with the first one.
get_step-AtFirst :
    (s : Contexts) (p : Progress)
    → s.pointer ≡ some 0
    → AtFirst p
    → Returns (λ r. (r.0 ≡ s) × AtFirst r.1) (get_step true s p)
unfolding get_step test_pointer build_step
get_step-AtFirst s calling e h = rw e (refl, refl)
get_step-AtFirst s seen_null e h = elim h [ ]
get_step-AtFirst s (building []) e h = rw e (refl, refl)
get_step-AtFirst s (building (a ∷ left)) e h = elim h [ ]
get_step-AtFirst s (given c) e h = (refl, h)

interleave-Ready :
    (schedule : List ℕ) (w : Threads) → Ready w → Returns Ready (interleave true schedule w)
unfolding interleave
interleave-Ready [] w v = v
interleave-Ready (i ∷ rest) w v =
    Returns->>= Ready (get_step true w.contexts (w.points i) >>= λ r. ok (stepped w i r)) _
      (Returns->>= Ready (get_step true w.contexts (w.points i)) _
        (get_step-AtFirst w.contexts (w.points i) v.pointer (v.all_first i))
        (λ r k. record {
          pointer = rw k.0 v.pointer;
          built = rw k.0 v.built;
          all_first =
              λ j. if_split AtFirst (j == i) r.1 (w.points j) (λ _. k.1) (λ _. v.all_first j);
        }))
      (λ w' v'. interleave-Ready rest w' v')

Building-Ready : (i : ℕ) (w : Threads) → Building i set_up_steps [] w → Ready w
Building-Ready i w b = record {
  pointer = b.pointer;
  built = b.built;
  all_first = λ j. elim (Bool-cases (j == i)) [
    | inl same ↦ subst AtFirst (sym b.here ∙ ap w.points (sym ((==_iff j i).0 same))) tt
    | inr other ↦ subst AtFirst (sym (b.others j other)) tt
  ];
}

all_steps : (i : ℕ) → Returns Ready (interleave true (i ∷ i ∷ replicate 8 i) all_calling)
unfolding set_up_steps
all_steps i =
    Returns-map (Building i (take 8 set_up_steps) (drop 8 set_up_steps)) Ready
      (λ w b. Building-Ready i w b) (interleave true (i ∷ i ∷ replicate 8 i) all_calling)
      (building_after i 8 (omega arith))

-- Where the first call has made all eight steps before another thread comes, then in any order of
-- the further steps of any threads one context is all that is ever allocated, it is set up whole,
-- and each thread that has returned has been given it.
pub get_late :
    (i j : ℕ) (schedule : List ℕ)
    → Returns
        (λ w. (w.contexts.built ≡ set_up_steps ∷ []) × AtFirst (w.points j))
        (interleave true ((i ∷ i ∷ replicate 8 i) ++ schedule) all_calling)
get_late i j schedule = rw (interleave-append true (i ∷ i ∷ replicate 8 i) schedule all_calling) (
    Returns->>= (λ w. (w.contexts.built ≡ set_up_steps ∷ []) × AtFirst (w.points j))
      (interleave true (i ∷ i ∷ replicate 8 i) all_calling) _ (all_steps i)
      (λ w v.
        Returns-map Ready (λ w. (w.contexts.built ≡ set_up_steps ∷ []) × AtFirst (w.points j))
          (λ w' v'. (v'.built, v'.all_first j)) (interleave true schedule w)
          (interleave-Ready schedule w v)))
