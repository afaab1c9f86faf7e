-- ===== src/Ompt/Discovery.antt =====
-- `xkomp_ompt_discover` of src/ompt/ompt.cc: a tool in the program, or the first of the listed
-- libraries that starts one. The environment, the linker and the libraries are a parameter.
use Prim.Native.String.{String, [] as eos, ◌∷◌ as ◌◁◌}
use Prim.Native.Char.{Char, code}
use text.Mathlib.Text.{◌==◌ as ◌≟◌}
use xkomp.Prelude.{ℕ, Bool, true, false, Option, none, some, List, [], ◌∷◌, ◌==◌, if◌then◌else◌}
use xkomp.Env.{attach}
use xkomp.Ompt.{Bridge, Act, opened, closed}

-- A tool's description is its address. `linked` is none where the symbol `ompt_start_tool` is, else
-- what that function returns; `start` is the same for a library by its handle.
pub record Loader : Type 0 where
  pub omp_tool : Option String
  pub omp_tool_libraries : Option String
  pub linked : Option (Option ℕ)
  pub copies : Bool  -- `strdup` returns a copy
  pub dlopen : String → Option ℕ
  pub start : ℕ → Option (Option ℕ)

abbrev pub is_colon : Char → Bool
is_colon c = code c == 58

abbrev at_colon : String → Bool
at_colon eos = true
at_colon (c ◁ s) = is_colon c

-- What the calls of `strtok_r` return.
unfoldable pub paths : String → List String
paths eos = []
paths (c ◁ s) = let rest = paths s in if is_colon c then rest else attach c (at_colon s) rest

abbrev pub did : Act → Bridge → Bridge
did act s = record s { acts = act ∷ s.acts }

-- What follows where no tool has been found yet.
abbrev pub or_else : Option ℕ × Bridge → (Bridge → Option ℕ × Bridge) → Option ℕ × Bridge
or_else (some r, s) next = (some r, s)
or_else (none, s) next = next s

abbrev pub joined : Option (Option ℕ) → Option ℕ
joined none = none
joined (some r) = r

-- A library without the symbol, and one that starts no tool, is closed.
abbrev pub started : ℕ → Option ℕ → Bridge → Option ℕ × Bridge
started h none s = (none, did (closed h) s)
started h (some r) s = (some r, record s { dlhandle = some h })

abbrev pub try_handle : Loader → Option ℕ → Bridge → Option ℕ × Bridge
try_handle L none s = (none, s)
try_handle L (some h) s = started h (joined (L.start h)) (did (opened h) s)

unfoldable pub load_tools : Loader → List String → Bridge → Option ℕ × Bridge
load_tools L [] s = (none, s)
load_tools L (path ∷ rest) s = or_else (try_handle L (L.dlopen path) s) (load_tools L rest)

unfoldable pub listed : Option String → Bool → List String
unfolding paths
listed none b = []
listed (some s) true = paths s
listed (some s) false = []

abbrev pub disabled : Option String → Bool
disabled none = false
disabled (some s) = s ≟ "disabled"

unfoldable pub discover : Loader → Bridge → Option ℕ × Bridge
unfolding load_tools paths
discover L s =
    if disabled L.omp_tool
    then (none, s)
    else or_else (joined L.linked, s) (load_tools L (listed L.omp_tool_libraries L.copies))
