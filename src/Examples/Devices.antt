-- ===== src/Examples/Devices.antt =====
-- The theorems on device numbers (src/device.cc) at a machine with two devices beside the host.
use xkomp.Prelude.{ℕ, ◌≤◌, ◌≡◌, arith, ok}
use xkomp.Prelude.Int.{pos}
use xkomp.Device.{omp_device_id_to_xkomp, device_unique_id_to_omp}
use xkomp.Device.Numbering.{omp-xkomp-omp}

omp-xkomp-omp_example :
    (u : ℕ) × (omp_device_id_to_xkomp 3 (pos 1) ≡ ok (pos u))
    × (u ≤ 2)
    × (device_unique_id_to_omp 3 (pos u) ≡ pos 1)
omp-xkomp-omp_example = omp-xkomp-omp 2 1 (omega arith)
