-- ===== src/Ompt/Table.antt =====
-- The table of callbacks of src/ompt/ompt.cc: what is registered is what is called.
use xkomp.Prelude.{
  ℕ, zero, suc, ◌<◌, ◌≡◌, refl, arith, true, false, none, some, List, [], ◌∷◌, set, length, ◌==◌,
  if◌then◌else◌, leb, ap, ◌||◌, ◌∙◌,
}
use xkomp.Ompt.{Bridge, cb_max, callback_at, set_callback, get_callback}

pub callback_at-set :
    (cbs : List ℕ) (which f j : ℕ)
    → which < length cbs
    → callback_at (set cbs which f) j ≡ (if j == which then f else callback_at cbs j)
unfolding callback_at
callback_at-set [] which f j h = absurd (omega arith)
callback_at-set (c ∷ cbs) zero f zero h = refl
callback_at-set (c ∷ cbs) zero f (suc j) h = ground arith
callback_at-set (c ∷ cbs) (suc w) f zero h = ground arith
callback_at-set (c ∷ cbs) (suc w) f (suc j) h =
    callback_at-set cbs w f j (omega arith)
    ∙ ap (λ b. if b then f else callback_at cbs j) (ground arith)

is_event : (which : ℕ) → 0 < which → which < cb_max → ((which == 0) || leb cb_max which) ≡ false
is_event which low high = ground arith

-- Over a table of full size, a registration under a number of an event is what the tool reads back
-- under that number, and nothing where it registered NULL; under every other number it reads what
-- it read before.
pub get_callback-set_callback :
    (s : Bridge) (which f j : ℕ)
    → length s.callbacks ≡ cb_max
    → 0 < which
    → which < cb_max
    → get_callback j true ((set_callback which f s).1)
      ≡ (if j == which then (if f == 0 then (0, none) else (1, some f)) else get_callback j true s)
unfolding set_callback get_callback callback_at
get_callback-set_callback s which f j full low high =
    rw (is_event which low high, callback_at-set s.callbacks which f j (omega arith)) (ground arith)
