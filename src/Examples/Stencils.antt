-- ===== src/Examples/Stencils.antt =====
-- The stencil of extensions/interfaces/stencil-1d/main-access.cc on three devices.
use xkomp.Prelude.{ℕ, ◌+◌, refl, true, arith, List, [], ◌∷◌, Returns}
use xkomp.Stencil.{Floats, Memory, first_layout}
use xkomp.Stencil.Line.{Holds}
use xkomp.Stencil.Tasks.{main_access, ready, Ended}
use xkomp.Stencil.Tasks.Order.{main_access_lem}

-- Sums of natural numbers in place of the averages of floats.
abbrev sums : Floats
sums = record { F = ℕ; nothing = 0; half = 5; one = 10; plus = λ x y. x + y; scale = λ ghost x. x }

abbrev blank : Memory sums
blank a = 0

-- The last two of three devices go through the first sweep and the last one into the second, before
-- the first device starts.
abbrev late_start : List ℕ
late_start = 2 ∷ 1 ∷ 2 ∷ 0 ∷ 0 ∷ 1 ∷ []

main_access_example :
    Returns (λ r. Holds sums 6 1 2 r.0.v r.1) (main_access sums 3 6 1 2 late_start true blank)
unfolding xkomp.Stencil.range_from xkomp.Stencil.Tasks.allowed
main_access_example =
    main_access_lem sums 3 6 1 2 late_start blank (omega arith) (omega arith) refl (omega arith)
      refl refl
