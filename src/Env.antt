-- ===== src/Env.antt =====
-- src/env.cc: the environment variables, read once at the start. `getenv` is the environment: none
-- where a variable is not set. What the graph library knows of its passes is a parameter.
pub mod Tokens
pub mod Passes
pub mod Init
use Prim.Native.String.{String, [] as eos, ◌∷◌ as ◌◁◌}
use Prim.Native.Char.{Char, code}
use text.Mathlib.Text.{◌==◌ as ◌≟◌}
use xkomp.Prelude.{
  ℕ, ◌+◌, ◌-◌, ◌*◌, Bool, true, false, not, ◌||◌, ◌&&◌, Option, none, some, List, [], ◌∷◌, ltb, leb,
  ◌==◌, if◌then◌else◌, Outcome, ok, dies, fatal, fatal_if, ◌>>=◌, ◌>>◌,
}
use xkomp.Prelude.Int.{ℤ, pos, sub_ℕ}

-- SEPARATORS: comma, space, tab, newline and carriage return.
unfoldable pub is_separator : Char → Bool
is_separator c =
    (code c == 44) || ((code c == 32) || ((code c == 9) || ((code c == 10) || (code c == 13))))

-- No token starts with this text.
abbrev pub at_end : String → Bool
at_end eos = true
at_end (c ◁ s) = is_separator c

-- A character before the tokens of what follows it; `alone` is whether a token ends behind it.
abbrev pub attach : Char → Bool → List String → List String
attach c true ts = (c ◁ eos) ∷ ts
attach c false [] = (c ◁ eos) ∷ []
attach c false (t ∷ ts) = (c ◁ t) ∷ ts

-- What the calls of `strtok` return, one after another.
unfoldable pub tokens : String → List String
unfolding is_separator
tokens eos = []
tokens (c ◁ s) = let rest = tokens s in if is_separator c then rest else attach c (at_end s) rest

-- A set of passes.
abbrev pub Passes : Type 0
Passes = ℕ → Bool

-- The graph library's passes, and what `command_graph_pass_from_str` finds.
pub record PassTable : Type 0 where
  pub from_str : String → Option ℕ
  pub reduce_node : ℕ
  pub transitive_reduction : ℕ
  pub sequence : ℕ
  pub prog_fuse : ℕ
  pub jit : ℕ

abbrev pub no_passes : Passes
no_passes k = false

abbrev pub add_pass : ℕ → Passes → Passes
add_pass i passes k = passes k || (i == k)

module _ (X : PassTable) where
  abbrev pub add_found : Option ℕ → Passes → Outcome Passes
  add_found none passes = dies fatal
  add_found (some i) passes = ok (add_pass i passes)

  -- The body of the loop over the tokens.
  unfoldable pub add_token : String → Passes → Outcome Passes
  add_token tok passes = if tok ≟ "none" then ok passes else add_found (X.from_str tok) passes

  unfoldable pub add_tokens : List String → Passes → Outcome Passes
  unfolding add_token
  add_tokens [] passes = ok passes
  add_tokens (tok ∷ toks) passes = add_token tok passes >>= add_tokens toks

  unfoldable pub default_passes : Passes
  default_passes =
      add_pass X.sequence (add_pass X.transitive_reduction (add_pass X.reduce_node no_passes))

  -- `xkomp_env_init_parse_taskgraph_opt`
  unfoldable pub taskgraph_opt : Option String → Outcome Passes
  unfolding add_tokens tokens default_passes
  taskgraph_opt none = ok default_passes
  taskgraph_opt (some value) = do
    passes ← add_tokens (tokens value) no_passes
    fatal_if (passes X.prog_fuse && not (passes X.jit))
    ok passes

-- `xkomp_env_init_parse`: an empty value counts as none.
unfoldable pub env_init_parse {ℓ} : {T : Type ℓ} → (String → T) → T → Option String → T
env_init_parse convert default none = default
env_init_parse convert default (some eos) = default
env_init_parse convert default (some (c ◁ s)) = convert (c ◁ s)
