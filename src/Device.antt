-- ===== src/Device.antt =====
-- src/device.cc: the two numberings of devices. XKRT numbers the host 0 and the others from 1;
-- OpenMP numbers the others from 0 and gives the host, the initial device, the last number.
-- `ndevices` is what `runtime.get_ndevices()` returns: every device, the host included.
pub mod Numbering
use xkomp.Prelude.{
  ℕ, zero, suc, ◌-◌, Bool, Option, none, some, if◌then◌else◌, Outcome, ok, dies, undefined, ◌>>=◌,
}
use xkomp.Prelude.Int.{ℤ, pos, negsuc, sub_ℕ, ◌+ℤ◌, ◌==ℤ◌, rem, pos_part}

abbrev pub host_device_unique_id : ℤ
host_device_unique_id = pos 0

unfoldable pub get_default_device : ℤ
get_default_device = pos 0

unfoldable pub get_num_devices : ℕ → ℤ
get_num_devices ndevices = sub_ℕ ndevices 1

unfoldable pub get_initial_device : ℕ → ℤ
get_initial_device ndevices = get_num_devices ndevices

-- `unique_id` is `thread->device_unique_id` of the calling thread.
unfoldable pub get_device_num : ℕ → ℤ → ℤ
unfolding get_initial_device
get_device_num ndevices unique_id =
    if unique_id ==ℤ host_device_unique_id
    then get_initial_device ndevices
    else unique_id +ℤ negsuc 0

unfoldable pub is_initial_device : ℕ → ℤ → Bool
unfolding get_device_num get_initial_device
is_initial_device ndevices unique_id =
    get_device_num ndevices unique_id ==ℤ get_initial_device ndevices

abbrev defined {ℓ} : {A : Type ℓ} → Option A → Outcome A
defined none = dies undefined
defined (some a) = ok a

-- The number as computed, before it is narrowed to XKRT's type of device ids.
unfoldable pub omp_device_id_to_xkomp : ℕ → ℤ → Outcome ℤ
unfolding get_initial_device
omp_device_id_to_xkomp ndevices device_id =
    if device_id ==ℤ get_initial_device ndevices
    then ok host_device_unique_id
    else (do r ← defined (rem device_id (pos_part (get_num_devices ndevices))); ok (pos 1 +ℤ r))

unfoldable pub device_unique_id_to_omp : ℕ → ℤ → ℤ
device_unique_id_to_omp ndevices unique_id =
    if unique_id ==ℤ host_device_unique_id then get_num_devices ndevices else unique_id +ℤ negsuc 0
