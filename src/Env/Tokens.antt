-- ===== src/Env/Tokens.antt =====
-- How a value of OMP_TASKGRAPH_OPT is cut into tokens.
use Prim.Native.String.{String, [] as eos, ◌∷◌ as ◌◁◌}
use Prim.Native.Char.{Char}
use xkomp.Prelude.{Bool, true, false, not, ◌&&◌, List, [], ◌∷◌}
use xkomp.Env.{is_separator}

abbrev pub has_no_separator : String → Bool
has_no_separator eos = true
has_no_separator (c ◁ s) = not (is_separator c) && has_no_separator s

-- A text that is one token.
abbrev pub is_word : String → Bool
is_word eos = false
is_word (c ◁ s) = has_no_separator (c ◁ s)

-- The characters of a text before another text.
abbrev pub before : String → String → String
before eos t = t
before (c ◁ s) t = c ◁ before s t

abbrev pub joined : List (String × Char) → String
joined [] = eos
joined ((w, c) ∷ rest) = before w (c ◁ joined rest)

abbrev pub all_words : List (String × Char) → Bool
all_words [] = true
all_words ((w, c) ∷ rest) = (is_word w && is_separator c) && all_words rest
