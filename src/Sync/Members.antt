-- ===== src/Sync/Members.antt =====
-- How many threads of a team run a region of src/kmp/master.cc or src/kmp/single.cc.
use xkomp.Prelude.{
  ℕ, zero, suc, ◌+◌, ◌≡◌, refl, ap, fun_ext, arith, Bool, false, ltb, some, if◌then◌else◌, Outcome,
  ok, ◌>>=◌,
}
use xkomp.Prelude.Int.{ℤ, pos, negsuc}
use xkomp.Sync.{Caller, kmpc_master, kmpc_masked, kmpc_single}

-- The results of a construct on the threads of a team of `n`, added up.
unfoldable pub entered : (ℕ → Outcome ℕ) → ℕ → Outcome ℕ
entered runs zero = ok 0
entered runs (suc n) = do k ← entered runs n; r ← runs n; ok (k + r)

-- The filter names a thread of a team of `n`.
abbrev pub names_thread : ℤ → ℕ → Bool
names_thread (pos f) n = ltb f n
names_thread (negsuc f) n = false

module _ (team : ℕ → Caller) (numbered : (i : ℕ) → (team i).tid ≡ i) where
  entered-masked_pos :
      (f n : ℕ)
      → entered (λ i. kmpc_masked (some (team i)) (pos f)) n ≡ ok (if ltb f n then 1 else 0)
  unfolding entered kmpc_masked
  entered-masked_pos f zero = ground arith
  entered-masked_pos f (suc n) = rw (entered-masked_pos f n, numbered n) (ground arith)

  entered-masked_negsuc : (f n : ℕ) → entered (λ i. kmpc_masked (some (team i)) (negsuc f)) n ≡ ok 0
  unfolding entered kmpc_masked
  entered-masked_negsuc f zero = refl
  entered-masked_negsuc f (suc n) = rw (entered-masked_negsuc f n, numbered n) (ground arith)

  master-masked : (t : Caller) → kmpc_master (some t) ≡ kmpc_masked (some t) (pos 0)
  unfolding kmpc_master kmpc_masked
  master-masked t = ground arith

  single-masked : (t : Caller) → kmpc_single (some t) ≡ kmpc_masked (some t) (pos 0)
  unfolding kmpc_single kmpc_masked
  single-masked t = ground arith

  entered-masked :
      (filter : ℤ) (n : ℕ)
      → entered (λ i. kmpc_masked (some (team i)) filter) n
        ≡ ok (if names_thread filter n then 1 else 0)
  entered-masked (pos f) n = entered-masked_pos f n
  entered-masked (negsuc f) n = entered-masked_negsuc f n

  -- In a team whose threads are numbered from 0 on, a masked region is run by one thread where its
  -- filter is the number of one, and by none otherwise; a master region and a single region are run
  -- by the same threads as a masked region with filter 0.
  pub entered_lem :
      (filter : ℤ) (n : ℕ)
      → (entered (λ i. kmpc_masked (some (team i)) filter) n
          ≡ ok (if names_thread filter n then 1 else 0))
        × (entered (λ i. kmpc_master (some (team i))) n
            ≡ entered (λ i. kmpc_masked (some (team i)) (pos 0)) n)
        × (entered (λ i. kmpc_single (some (team i))) n
            ≡ entered (λ i. kmpc_masked (some (team i)) (pos 0)) n)
  entered_lem filter n = (
    entered-masked filter n,
    ap (λ runs. entered runs n) (fun_ext (λ i. master-masked (team i))),
    ap (λ runs. entered runs n) (fun_ext (λ i. single-masked (team i))),
  )
