-- ===== src/Ompt/System/Teams/Orders.antt =====
-- The orders in which the threads of a region can be seen by the bridge of src/ompt/ompt.cc, and
-- what the tool is told in each of them.
use xkomp.Prelude.{
  ==_swap, ℕ, ◌+◌, ◌≡◌, refl, arith, ap, sym, subst, ◌∙◌, Bool, true, false, ◌&&◌, List, [], ◌∷◌,
  ◌==◌, ==_iff, if◌then◌else◌, if_both, if_true, if_false, Bool-cases, inl, inr, Returns,
  Returns->>=,
}
use xkomp.Ompt.{Bridge, ToolCode, Endpoint}
use xkomp.Ompt.System.{Action, act, run}
use xkomp.Ompt.System.View.{suc_if}
use xkomp.Ompt.System.Teams.{Told, is_inner, reports, act-Told}

-- One call after another, each the next one of some thread, until every thread is through.
pub data Shuffle : (ℕ → List Action) → List Action → Type 0 where
  through : {threads : ℕ → List Action} → ((i : ℕ) → threads i ≡ []) → Shuffle threads []
  turn :
      {threads : ℕ → List Action} {a : Action} {rest : List Action} (i : ℕ) (now : List Action)
      → threads i ≡ a ∷ now
      → Shuffle (λ j. if j == i then now else threads j) rest
      → Shuffle threads (a ∷ rest)

abbrev pub all_inner : List Action → Bool
all_inner [] = true
all_inner (a ∷ rest) = is_inner a && all_inner rest

-- How often a list reports the begin, or the end, of the implicit task `k`.
abbrev pub tally : ℕ → Endpoint → List Action → ℕ
tally k scope [] = 0
tally k scope (a ∷ rest) = suc_if (reports k scope a) (tally k scope rest)

pub run-Told :
    (T : ToolCode) (k : ℕ) (scope : Endpoint) (n : ℕ) (actions : List Action) (s : Bridge)
    → all_inner actions ≡ true
    → Told k scope n s
    → Returns (Told k scope (tally k scope actions + n)) (run T actions s)
unfolding run
run-Told T k scope n [] s e h = (h.0, h.1, h.2 ∙ omega arith)
run-Told T k scope n (a ∷ rest) s e h =
    Returns->>= (Told k scope (tally k scope (a ∷ rest) + n)) (act T a s) (run T rest)
      (act-Told T k scope n a s (ground arith) h)
      (λ s' h'.
        subst (λ m. Returns (Told k scope m) (run T rest s')) (ground arith)
          (run-Told T k scope (suc_if (reports k scope a) n) rest s' (ground arith) h'))

pub Shuffle-inner :
    (threads : ℕ → List Action) (merged : List Action)
    → Shuffle threads merged
    → ((i : ℕ) → all_inner (threads i) ≡ true)
    → all_inner merged ≡ true
Shuffle-inner threads _ (through done) h = refl
Shuffle-inner threads _ (turn {a = a} {rest = rest} i now e more) h =
    let here : all_inner (a ∷ now) ≡ true = subst (λ l. all_inner l ≡ true) e (h i) in
    let others : all_inner rest ≡ true =
      Shuffle-inner _ rest more
        (λ j. if_both (λ l. all_inner l ≡ true) (j == i) now (threads j) (ground arith) (h j)) in
    ground arith

moved : (j i o : ℕ) → (j == i) ≡ true → (j == o) ≡ false → (i == o) ≡ false
moved j i o same ne = ground arith

module _ (k : ℕ) (scope : Endpoint) (o i : ℕ) (threads : ℕ → List Action) (a : Action)
    (now : List Action) (e : threads i ≡ a ∷ now)
    (h : (j : ℕ) → (j == o) ≡ false → tally k scope (threads j) ≡ 0) (ne : (i == o) ≡ false) where
  silent : suc_if (reports k scope a) (tally k scope now) ≡ 0
  silent = ap (tally k scope) (sym e) ∙ h i ne

  silent_now : tally k scope now ≡ 0
  silent_now = let s = silent in ground arith

  silent_head : reports k scope a ≡ false
  silent_head = let s = silent in ground arith

-- Where one thread alone reports the task, the order does not matter.
pub Shuffle-tally :
    (k : ℕ) (scope : Endpoint) (o : ℕ) (threads : ℕ → List Action) (merged : List Action)
    → Shuffle threads merged
    → ((j : ℕ) → (j == o) ≡ false → tally k scope (threads j) ≡ 0)
    → tally k scope merged ≡ tally k scope (threads o)
Shuffle-tally k scope o threads _ (through done) h = ap (tally k scope) (sym (done o))
Shuffle-tally k scope o threads _ (turn {a = a} {rest = rest} i now e more) h =
    let put : ℕ → List Action = λ j. if j == i then now else threads j in
    let rest_of : tally k scope rest ≡ tally k scope (put o) =
      Shuffle-tally k scope o put rest more (λ j ne. elim (Bool-cases (j == i)) [
        | inl same ↦ rw same (silent_now k scope o i threads a now e h (moved j i o same ne))
        | inr other ↦ rw other (h j ne)
      ]) in
    elim (Bool-cases (o == i)) [
      | inl same ↦
          ap (suc_if (reports k scope a))
            (rest_of ∙ ap (tally k scope) (if_true (o == i) now _ same))
          ∙ ap (tally k scope) (sym e ∙ ap threads (sym ((==_iff o i).0 same)))
      | inr other ↦
          ap (λ b. suc_if b (tally k scope rest))
            (silent_head k scope o i threads a now e h (==_swap o i false other))
          ∙ (rest_of ∙ ap (tally k scope) (if_false (o == i) now _ other))
    ]
