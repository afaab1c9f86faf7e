-- ===== src/Stencil.antt =====
-- extensions/interfaces/stencil-1d/main-access.cc: sweeps of a stencil over a line of cells that is
-- cut into one block for each device. `F` stands for float. Addresses count cells from the start of
-- the one allocation; `n` and GHOST are natural numbers. Stencil/Tasks has the
-- program itself, with its tasks in any order that their access clauses allow.
pub mod Memory
pub mod Cells
pub mod Line
pub mod Tasks
use xkomp.Prelude.{
  ℕ, zero, suc, ◌+◌, ◌-◌, ◌*◌, ◌/◌, ◌%◌, ◌==◌, ltb, not, Bool, List, [], ◌∷◌, ◌++◌, if◌then◌else◌,
  Outcome, ok, dies, undefined, fatal_if, ◌>>=◌, ◌>>◌,
}

-- The operations on floats: the two initial values, the sum, and the product with
-- `1.0/(2*GHOST+1)`, which is computed for each GHOST.
pub record Floats : Type 1 where
  pub F : Type 0
  pub nothing : F
  pub half : F
  pub one : F
  pub plus : F → F → F
  pub scale : ℕ → F → F

-- `i, i + 1, ...`, as many as there are turns.
unfoldable pub range_from : ℕ → ℕ → List ℕ
range_from i zero = []
range_from i (suc m) = i ∷ range_from (i + 1) m

-- The number of cells that are allocated.
abbrev pub size_of : ℕ → ℕ → ℕ
size_of n ghost = 2 * (n + 2 * ghost)

-- `n`, GHOST and the two pointers; `u` is read and `v` written.
pub record Layout : Type 0 where
  pub n : ℕ
  pub ghost : ℕ
  pub u : ℕ
  pub v : ℕ

abbrev pub swapped : Layout → Layout
swapped l = record l { u = l.v; v = l.u }

-- The boundary: `u[-g-1] = v[-g-1] = u[n+g] = v[n+g]`, for each `g`, from the right.
unfoldable pub boundary : Layout → List ℕ → List ℕ
boundary l [] = []
boundary l (g ∷ gs) =
    (l.v + (l.n + g)) ∷ (l.u + (l.n + g)) ∷ (l.v - g - 1) ∷ (l.u - g - 1) ∷ boundary l gs

-- `u[i] = v[i]`.
unfoldable pub inside : Layout → List ℕ → List ℕ
inside l [] = []
inside l (i ∷ is) = (l.v + i) ∷ (l.u + i) ∷ inside l is

abbrev pub first_layout : ℕ → ℕ → Layout
first_layout n ghost = record { n = n; ghost = ghost; u = ghost; v = n + 3 * ghost }

module _ (A : Floats) where
  open A use {F, nothing, half, one, plus, scale}

  abbrev pub Memory : Type 0
  Memory = ℕ → F

  abbrev pub write : Memory → ℕ → F → Memory
  write mem a x b = if b == a then x else mem b

  unfoldable pub load : ℕ → Memory → ℕ → Outcome F
  load size mem a = if ltb a size then ok (mem a) else dies undefined

  unfoldable pub store : ℕ → Memory → ℕ → F → Outcome Memory
  store size mem a x = if ltb a size then ok (write mem a x) else dies undefined

  -- The loop over `g`, from the address of the leftmost neighbour on.
  unfoldable pub neighbours : ℕ → Memory → ℕ → ℕ → F → Outcome F
  unfolding load
  neighbours size mem a zero acc = ok acc
  neighbours size mem a (suc m) acc = do
    x ← load size mem a
    neighbours size mem (a + 1) m (plus acc x)

  -- The cell `k`.
  unfoldable pub cell : Layout → Memory → ℕ → Outcome Memory
  unfolding neighbours store
  cell l mem k = do
    acc ← neighbours (size_of l.n l.ghost) mem (l.u + k - l.ghost) (2 * l.ghost + 1) nothing
    store (size_of l.n l.ghost) mem (l.v + k) (scale l.ghost acc)

  unfoldable pub cells : Layout → List ℕ → Memory → Outcome Memory
  unfolding cell
  cells l [] mem = ok mem
  cells l (k ∷ ks) mem = cell l mem k >>= cells l ks

  -- `*p = x` for each of the addresses.
  unfoldable pub store_all : ℕ → List ℕ → F → Memory → Outcome Memory
  unfolding store
  store_all size [] x mem = ok mem
  store_all size (a ∷ addresses) x mem = store size mem a x >>= store_all size addresses x

  unfoldable pub initial : ℕ → ℕ → Memory → Outcome Memory
  unfolding store_all boundary inside range_from
  initial n ghost mem = do
    let l = first_layout n ghost
    mem' ← store_all (size_of n ghost) (boundary l (range_from 0 ghost)) one mem
    store_all (size_of n ghost) (inside l (range_from 0 n)) half mem'
