-- ===== src/Task/Layout.antt =====
-- The sizes and addresses inside a task's allocation (src/kmp/task.cc): `task_args_t`, then the
-- compiler's `kmp_task_t` with its shareds, then the argument slots. `size_t` has 64 bits, and a
-- pointer 8 bytes.
use Prim.Native.Nat.{bit_and}
use xkomp.Prelude.{
  ℕ, zero, suc, ◌⊎◌, ◌+◌, ◌-◌, ◌*◌, ◌%◌, ◌^◌, ◌≤◌, ◌<◌, ◌≡◌, refl, ◌∙◌, arith, inl, inr, leb, ◌==◌,
  if◌then◌else◌,
}
use xkomp.Prelude.Bits.{bit_and_mask}

abbrev pub size_mod : ℕ
size_mod = 2 ^ 64

abbrev pub sizeof_pointer : ℕ
sizeof_pointer = 8

-- Two pointers, a size and a pointer.
abbrev pub sizeof_task_args : ℕ
sizeof_task_args = 32

infixl 65 ◌+ₛ◌
abbrev pub ◌+ₛ◌ : ℕ → ℕ → ℕ
a +ₛ b = (a + b) % size_mod

-- `val - 1` wraps at 0, and `~x` is the number with the other bits.
unfoldable pub round_up_to_val : ℕ → ℕ → ℕ
round_up_to_val size val =
    let mask = (val + size_mod - 1) % size_mod in
    let kept = bit_and size (size_mod - 1 - mask) in
    if bit_and size mask == 0
    then size
    else if leb kept (size_mod - 1 - val)
    then kept +ₛ val
    else kept

-- `ktask_from_task`: the address behind the `task_args_t` at `args`.
unfoldable pub ktask_from_args : ℕ → ℕ
ktask_from_args args = args +ₛ sizeof_task_args

-- The address of the `task_args_t` that `task_from_ktask` reads.
unfoldable pub args_from_ktask : ℕ → ℕ
args_from_ktask ktask = (ktask + size_mod - sizeof_task_args) % size_mod

unfoldable pub slot_count : ℕ → ℕ
slot_count n_args = if n_args == 0 then 1 else n_args

unfoldable pub kmp_block : ℕ → ℕ → ℕ
kmp_block sizeof_kmp_task sizeof_shareds =
    round_up_to_val (sizeof_kmp_task +ₛ sizeof_shareds) sizeof_pointer

unfoldable pub args_size : ℕ → ℕ → ℕ → ℕ
args_size sizeof_kmp_task sizeof_shareds n_args =
    sizeof_task_args
    +ₛ kmp_block sizeof_kmp_task sizeof_shareds
    +ₛ slot_count n_args * sizeof_pointer % size_mod

unfoldable pub shareds_address : ℕ → ℕ → ℕ → ℕ
shareds_address ktask sizeof_kmp_task sizeof_shareds =
    if leb sizeof_shareds 0 then 0 else ktask +ₛ sizeof_kmp_task

unfoldable pub kargs_address : ℕ → ℕ → ℕ → ℕ
kargs_address ktask sizeof_kmp_task sizeof_shareds =
    ktask +ₛ kmp_block sizeof_kmp_task sizeof_shareds

low_mask : (a : ℕ) → bit_and a 7 ≡ a % 8
low_mask a = bit_and_mask 0 3 a ∙ omega arith

high_mask : (a : ℕ) → a < size_mod → bit_and a (size_mod - 8) ≡ a - a % 8
high_mask a h = bit_and_mask 3 61 a ∙ omega arith

-- Rounding to the size of a pointer: the least multiple of 8 from the size on, for every size that
-- leaves room for one.
pub round_up_to_val_bounds :
    (size : ℕ)
    → size + 8 ≤ size_mod
    → (round_up_to_val size 8 % 8 ≡ 0)
      × (size ≤ round_up_to_val size 8)
      × (round_up_to_val size 8 < size + 8)
unfolding round_up_to_val
round_up_to_val_bounds size h =
    rw (low_mask size, high_mask size (omega arith)) (ground arith, ground arith, ground arith)

-- The areas of one allocation of a task whose `task_args_t` stands at `args`, where none of the
-- sizes wraps: the compiler's structure begins behind the `task_args_t`, the shareds lie behind
-- it, the argument slots begin at the next address that is a multiple of 8 past the block, and
-- they end where the allocation ends.
pub layout :
    (args sizeof_kmp_task sizeof_shareds n_args : ℕ)
    → args + sizeof_task_args + (sizeof_kmp_task + sizeof_shareds + 8) + slot_count n_args * 8
      < size_mod
    → args % 8 ≡ 0
    → let ktask = ktask_from_args args in
      let kargs = kargs_address ktask sizeof_kmp_task sizeof_shareds in
      (ktask ≡ args + sizeof_task_args)
      × (args_from_ktask ktask ≡ args)
      × (ktask + sizeof_kmp_task + sizeof_shareds ≤ kargs)
      × (kargs % 8 ≡ 0)
      × (kargs + slot_count n_args * 8 ≡ args + args_size sizeof_kmp_task sizeof_shareds n_args)
unfolding ktask_from_args kargs_address args_from_ktask args_size kmp_block
layout args sk ss n room aligned =
    let block = round_up_to_val_bounds (sk +ₛ ss) (omega arith) in
    (omega arith, omega arith, omega (arith, block), omega (arith, block), omega (arith, block))

-- A task with shareds finds them inside its own block, and one with none has a null pointer.
pub shareds_inside :
    (args sizeof_kmp_task sizeof_shareds : ℕ)
    → args + sizeof_task_args + (sizeof_kmp_task + sizeof_shareds + 8) < size_mod
    → let ktask = ktask_from_args args in
      let shareds = shareds_address ktask sizeof_kmp_task sizeof_shareds in
      (sizeof_shareds ≡ 0) × (shareds ≡ 0)
      ⊎ (0 < sizeof_shareds)
        × (shareds ≡ ktask + sizeof_kmp_task)
        × (shareds + sizeof_shareds ≤ kargs_address ktask sizeof_kmp_task sizeof_shareds)
unfolding ktask_from_args shareds_address kargs_address kmp_block
shareds_inside args sk zero room = inl (refl, refl)
shareds_inside args sk (suc ss) room =
    let block = round_up_to_val_bounds (sk +ₛ suc ss) (omega arith) in
    inr (omega arith, ground arith, ground (arith, block))
