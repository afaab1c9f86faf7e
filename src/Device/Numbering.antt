-- ===== src/Device/Numbering.antt =====
-- The two numberings are inverse to one another on the devices that exist.
use xkomp.Prelude.{ℕ, zero, suc, ◌%◌, ◌≤◌, ◌≡◌, ap, arith, true, ok, dies, undefined, ◌≢◌, ◌↔◌}
use native.Mathlib.Decide.{ℕ_discrete}
use native.Mathlib.Nat.{mod-eq_of_lt}
use xkomp.Prelude.Int.{ℤ, pos, negsuc, sub_ℕ}
use xkomp.Device.{
  omp_device_id_to_xkomp, device_unique_id_to_omp, is_initial_device, get_num_devices,
}

pub num_devices-suc : (n : ℕ) → get_num_devices (suc n) ≡ pos n
unfolding get_num_devices
num_devices-suc n = ground arith

-- The host's number, and the rest.
pub to_xkomp-host : (n : ℕ) → omp_device_id_to_xkomp (suc n) (pos n) ≡ ok (pos 0)
unfolding omp_device_id_to_xkomp
to_xkomp-host n = rw (num_devices-suc n) (ground arith)

to_xkomp-device :
    (n d : ℕ)
    → d ≢ suc n
    → omp_device_id_to_xkomp (suc (suc n)) (pos d) ≡ ok (pos (suc (d % suc n)))
unfolding omp_device_id_to_xkomp
to_xkomp-device n d h = rw (num_devices-suc (suc n)) (ground arith)

pub to_xkomp-below :
    (n d : ℕ) → d ≤ n → omp_device_id_to_xkomp (suc (suc n)) (pos d) ≡ ok (pos (suc d))
to_xkomp-below n d h =
    rw (to_xkomp-device n d (λ e. absurd (omega arith)))
      (ap (λ r. ok (pos (suc r))) (mod-eq_of_lt (omega arith)))

to_omp-host : (n : ℕ) → device_unique_id_to_omp (suc n) (pos 0) ≡ pos n
unfolding device_unique_id_to_omp
to_omp-host n = num_devices-suc n

to_omp-device : (n u : ℕ) → device_unique_id_to_omp n (pos (suc u)) ≡ pos u
unfolding device_unique_id_to_omp
to_omp-device n u = ground arith

-- With `n` devices beside the host, each OpenMP number up to `n` is taken to an XKRT id of one of
-- the `n + 1` devices, and that id back to the number.
pub omp-xkomp-omp :
    (n d : ℕ)
    → d ≤ n
    → (u : ℕ) × (omp_device_id_to_xkomp (suc n) (pos d) ≡ ok (pos u))
      × (u ≤ n)
      × (device_unique_id_to_omp (suc n) (pos u) ≡ pos d)
omp-xkomp-omp zero zero h = (0, to_xkomp-host 0, omega arith, to_omp-host 0)
omp-xkomp-omp zero (suc d) h = absurd (omega arith)
omp-xkomp-omp (suc n) d h = elim (ℕ_discrete d (suc n)) [
  | yes e ↦ (0, rw e (to_xkomp-host (suc n)), omega arith, rw e (to_omp-host (suc n)))
  | no e ↦ (suc d, to_xkomp-below n d (omega arith), omega arith, to_omp-device (suc (suc n)) d)
]

-- Each XKRT id up to `n` is taken to one of the OpenMP numbers up to `n`, and that number back to
-- the id.
pub xkomp-omp-xkomp :
    (n u : ℕ)
    → u ≤ n
    → (d : ℕ) × (device_unique_id_to_omp (suc n) (pos u) ≡ pos d)
      × (d ≤ n)
      × (omp_device_id_to_xkomp (suc n) (pos d) ≡ ok (pos u))
xkomp-omp-xkomp n zero h = (n, to_omp-host n, omega arith, to_xkomp-host n)
xkomp-omp-xkomp zero (suc u) h = absurd (omega arith)
xkomp-omp-xkomp (suc n) (suc u) h =
    (u, to_omp-device (suc (suc n)) u, omega arith, to_xkomp-below n u (omega arith))

-- Where the host is the only device, every OpenMP number but 0, the host's, makes the translation
-- divide by 0.
pub omp_device_id_to_xkomp_host_only :
    (d : ℤ) → d ≢ pos 0 → omp_device_id_to_xkomp 1 d ≡ dies undefined
unfolding omp_device_id_to_xkomp
omp_device_id_to_xkomp_host_only (pos d) h = rw (num_devices-suc 0) (ground arith)
omp_device_id_to_xkomp_host_only (negsuc d) h = rw (num_devices-suc 0) (ground arith)

-- With `n + 1` devices beside the host, the negative number `-(k + 1)` is taken to
-- `1 - (k + 1) % (n + 1)`: the host's id, a device's or a negative one, and never refused.
pub omp_device_id_to_xkomp_negative :
    (n k : ℕ) → omp_device_id_to_xkomp (suc (suc n)) (negsuc k) ≡ ok (sub_ℕ 1 (suc k % suc n))
unfolding omp_device_id_to_xkomp
omp_device_id_to_xkomp_negative n k = rw (num_devices-suc (suc n)) (ground arith)

-- With `n` devices beside the host, a thread on the device with XKRT id `u`, at most `n`, is on the
-- initial device just where that id is 0.
pub is_initial_device_iff : (n u : ℕ) → u ≤ n → (is_initial_device (suc n) (pos u) ≡ true) ↔ (u ≡ 0)
unfolding is_initial_device
is_initial_device_iff n zero h = rw (num_devices-suc n) (ground arith)
is_initial_device_iff n (suc u) h = rw (num_devices-suc n) (ground arith)
