-- ===== src/Env/Passes.antt =====
-- Which passes a value of OMP_TASKGRAPH_OPT names.
use Prim.Native.String.{String}
use text.Mathlib.Text.{◌==◌ as ◌≟◌}
use xkomp.Prelude.{
  ℕ, ◌≡◌, refl, sym, ap, ◌∙◌, fun_ext, arith, Bool, true, false, not, ◌&&◌, ◌||◌, Bool-cases, inl,
  inr, Option, none, some, List, [], ◌∷◌, ◌==◌, if◌then◌else◌, Outcome, ok, dies, fatal, fatal_if,
  ◌>>=◌, ◌>>◌,
}
use xkomp.Env.{
  Passes, PassTable, add_pass, no_passes, add_found, add_token, add_tokens, tokens, taskgraph_opt,
}

abbrev pub missing : Option ℕ → Bool
missing none = true
missing (some i) = false

abbrev pub is_pass : ℕ → Option ℕ → Bool
is_pass k none = false
is_pass k (some i) = i == k

module _ (X : PassTable) where
  -- A token that is not "none" and names no pass; one that names pass `k`.
  abbrev pub unknown : String → Bool
  unknown tok = not (tok ≟ "none") && missing (X.from_str tok)

  abbrev pub names : ℕ → String → Bool
  names k tok = not (tok ≟ "none") && is_pass k (X.from_str tok)

  abbrev pub any_unknown : List String → Bool
  any_unknown [] = false
  any_unknown (tok ∷ toks) = unknown tok || any_unknown toks

  abbrev pub named : List String → Passes
  named [] k = false
  named (tok ∷ toks) k = names k tok || named toks k

  abbrev joined_passes : List String → Passes → Outcome Passes
  joined_passes toks passes =
      if any_unknown toks then dies fatal else ok (λ k. passes k || named toks k)

  or_assoc : (a b c : Bool) → ((a || b) || c) ≡ (a || (b || c))
  or_assoc a b c = ground arith

  or_false : (a : Bool) → (a || false) ≡ a
  or_false a = ground arith

  found_step :
      (tok : String) (toks : List String) (passes : Passes) (o : Option ℕ)
      → ((p : Passes) → add_tokens X toks p ≡ joined_passes toks p)
      → (add_found X o passes >>= add_tokens X toks) ≡ (
          if missing o || any_unknown toks
          then dies fatal
          else ok (λ k. passes k || (is_pass k o || named toks k)))
  found_step tok toks passes none ih = refl
  found_step tok toks passes (some i) ih =
      ih (add_pass i passes)
      ∙ ap (λ (p : Passes). if any_unknown toks then dies fatal else ok p)
          (fun_ext λ k. or_assoc (passes k) (i == k) (named toks k))

  add_tokens_lem :
      (toks : List String) (passes : Passes) → add_tokens X toks passes ≡ joined_passes toks passes
  unfolding add_tokens add_token
  add_tokens_lem [] passes = ap ok (fun_ext λ k. sym (or_false (passes k)))
  add_tokens_lem (tok ∷ toks) passes = elim (Bool-cases (tok ≟ "none")) [
    | inl t ↦ rw t (add_tokens_lem toks passes)
    | inr e ↦ rw e (found_step tok toks passes (X.from_str tok) (λ p. add_tokens_lem toks p))
  ]

  fused :
      (b : Bool) (p : Passes)
      → ((if b then dies fatal else ok p) >>= λ q.
          fatal_if (q X.prog_fuse && not (q X.jit)) >> ok q)
        ≡ (if b then dies fatal else if p X.prog_fuse && not (p X.jit) then dies fatal else ok p)
  fused true p = refl
  fused false p = elim (Bool-cases (p X.prog_fuse && not (p X.jit))) [ inl h ↦ rw h | inr h ↦ rw h ]

  -- What a value asks for: the program ends on a token that is neither "none" nor the name of a
  -- pass, and on the fusion of programs without their compilation; otherwise the passes are those
  -- that some token names, whatever the order of the tokens and however often one occurs.
  pub taskgraph_opt_lem :
      (value : String)
      → taskgraph_opt X (some value) ≡ (
          if any_unknown (tokens value)
          then dies fatal
          else if named (tokens value) X.prog_fuse && not (named (tokens value) X.jit)
          then dies fatal
          else ok (named (tokens value)))
  unfolding taskgraph_opt
  taskgraph_opt_lem value =
      rw (add_tokens_lem (tokens value) no_passes)
        (fused (any_unknown (tokens value)) (named (tokens value)))
