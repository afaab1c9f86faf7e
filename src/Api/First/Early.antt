-- ===== src/Api/First/Early.antt =====
-- A second thread that calls while the first one is at work.
use xkomp.Prelude.{
  ℕ, zero, suc, ◌≤◌, ◌≡◌, refl, sym, ap, ◌∙◌, subst, arith, fun_ext, Bool, true, false, some, List,
  [], ◌∷◌, ◌++◌, length, replicate, take, drop, ◌==◌, ==_iff, if_true, if_false, ok, ◌>>=◌,
  >>=-assoc, Returns, Returns->>=, ==_swap,
}
use mathlib.Core.List.{append_assoc, append-nil}
use xkomp.Api.{SetUp}
use xkomp.Api.First.{
  calling, seen_null, building, given, set_up_steps, test_pointer, allocate, add_step, build_step,
  get_step, Threads, stepped, interleave, all_calling,
}

-- The only context has been allocated, `made` is done of it, and thread `i` has the rest to do.
pub record Building (i : ℕ) (made left : List SetUp) (w : Threads) : Type 0 where
  pub pointer : w.contexts.pointer ≡ some 0
  pub built : w.contexts.built ≡ made ∷ []
  pub here : w.points i ≡ building left
  pub others : (j : ℕ) → (j == i) ≡ false → w.points j ≡ calling

building_next :
    (i : ℕ) (a : SetUp) (made left : List SetUp) (w : Threads)
    → Building i made (a ∷ left) w
    → Returns
        (Building i (made ++ a ∷ []) left)
        (get_step true w.contexts (w.points i) >>= λ r. ok (stepped w i r))
unfolding get_step build_step add_step
building_next i a made left w b =
    rw (b.here, b.pointer, b.built)
      (record {
        pointer = refl;
        built = refl;
        here = if_true (i == i) (building left) _ ((==_iff i i).1 refl);
        others = λ j other. if_false (j == i) _ _ other ∙ b.others j other;
      })

pub begun :
    (i : ℕ) → Returns (Building i [] set_up_steps) (interleave true (i ∷ i ∷ []) all_calling)
unfolding interleave get_step test_pointer allocate
begun i = rw (if_true (i == i) seen_null calling ((==_iff i i).1 refl)) (record {
  pointer = refl;
  built = refl;
  here = if_true (i == i) (building set_up_steps) _ ((==_iff i i).1 refl);
  others = λ j other. if_false (j == i) _ _ other ∙ if_false (j == i) _ _ other;
})

pub building_run :
    (i n : ℕ) (made left : List SetUp) (w : Threads)
    → n ≤ length left
    → Building i made left w
    → Returns (Building i (made ++ take n left) (drop n left)) (interleave true (replicate n i) w)
unfolding interleave
building_run i zero made left w h b = subst (λ m. Building i m left w) (sym (append-nil made)) b
building_run i (suc n) made [] w h b = absurd (omega arith)
building_run i (suc n) made (a ∷ left) w h b =
    Returns->>= (Building i (made ++ a ∷ take n left) (drop n left))
      (get_step true w.contexts (w.points i) >>= λ r. ok (stepped w i r)) _
      (building_next i a made left w b)
      (λ w' b'.
        subst (λ m. Returns (Building i m (drop n left)) (interleave true (replicate n i) w'))
          (append_assoc made (a ∷ []) (take n left))
          (building_run i n (made ++ a ∷ []) left w' (omega arith) b'))

pub interleave-append :
    (memory : Bool) (xs ys : List ℕ) (w : Threads)
    → interleave memory (xs ++ ys) w ≡ (interleave memory xs w >>= interleave memory ys)
unfolding interleave
interleave-append memory [] ys w = refl
interleave-append memory (i ∷ xs) ys w =
    ap (λ k. (get_step memory w.contexts (w.points i) >>= λ r. ok (stepped w i r)) >>= k)
      (fun_ext (interleave-append memory xs ys))
    ∙ >>=-assoc (get_step memory w.contexts (w.points i) >>= λ r. ok (stepped w i r)) _ _

-- The first thread has made `k` steps of the set-up.
pub building_after :
    (i k : ℕ)
    → k ≤ length set_up_steps
    → Returns
        (Building i (take k set_up_steps) (drop k set_up_steps))
        (interleave true (i ∷ i ∷ replicate k i) all_calling)
building_after i k h = rw (interleave-append true (i ∷ i ∷ []) (replicate k i) all_calling) (
    Returns->>= (Building i (take k set_up_steps) (drop k set_up_steps))
      (interleave true (i ∷ i ∷ []) all_calling) _ (begun i)
      (λ w b. building_run i k [] set_up_steps w h b))

-- What a thread is given, and what has been done of it by then.
abbrev pub GivenAt : ℕ → ℕ → List SetUp → List SetUp → Threads → Type 0
GivenAt i j made left w =
    (w.points j ≡ given 0) × (w.contexts.built ≡ made ∷ []) × (w.points i ≡ building left)

given_next :
    (i j : ℕ) (made left : List SetUp) (w : Threads)
    → (j == i) ≡ false
    → Building i made left w
    → Returns (GivenAt i j made left) (interleave true (j ∷ []) w)
unfolding interleave get_step test_pointer
given_next i j made left w other b =
    rw (b.others j other, b.pointer)
      (
        if_true (j == j) (given 0) _ ((==_iff j j).1 refl),
        b.built,
        if_false (i == j) _ _ (==_swap j i false other) ∙ b.here,
      )

-- A thread `j` that calls when the first one has made `k` of the eight steps of the set-up, however
-- few, returns at once with the context, of which just these steps have been made: the first thread
-- has the others still before it.
pub get_early :
    (i j k : ℕ)
    → (j == i) ≡ false
    → k ≤ 8
    → Returns
        (GivenAt i j (take k set_up_steps) (drop k set_up_steps))
        (interleave true ((i ∷ i ∷ replicate k i) ++ j ∷ []) all_calling)
unfolding set_up_steps
get_early i j k other h = rw (interleave-append true (i ∷ i ∷ replicate k i) (j ∷ []) all_calling) (
    Returns->>= (GivenAt i j (take k set_up_steps) (drop k set_up_steps))
      (interleave true (i ∷ i ∷ replicate k i) all_calling) _ (building_after i k h)
      (λ w b. given_next i j (take k set_up_steps) (drop k set_up_steps) w other b))
