-- ===== src/Mupgrade/Check/Flag.antt =====
-- What passes the test of an image, and when the fall-back fires.
use pio_esp_mdf_example.Prelude.{
  ℕ, zero, suc, ◌+◌, ◌*◌, ◌<◌, ◌≤◌, ◌≡◌, ◌↔◌, refl, Bool, true, false, List, [], ◌∷◌, Option, none,
  some, arith, replicate,
}
use pio_esp_mdf_example.Mcommon.Err.{mdf_ok}
use pio_esp_mdf_example.Mupgrade.Kmp.{kmp_find, kmp_next}
use pio_esp_mdf_example.Mupgrade.Kmp.Fall.{Agrees}
use pio_esp_mdf_example.Mupgrade.Kmp.Find.{kmp_find_iff}
use pio_esp_mdf_example.Mupgrade.Check.{
  Partition, strlen, firmware_check, firmware_flag_size, RestartApi, FallbackApi, version_fallback,
  restart_trigger, CountOp, save, erase, start_timer,
}

firmware_check-find :
    (flag : List ℕ) (partition : Partition)
    → strlen flag ≤ 32
    → (firmware_check flag mdf_ok (some partition) ≡ mdf_ok) ↔ (
        kmp_find partition.bytes partition.size flag
          (strlen flag)
          (kmp_next flag (strlen flag) (replicate firmware_flag_size 0))
        ≡ mdf_ok)
unfolding firmware_check
firmware_check-find flag partition short = (ground arith, ground arith)

-- If the partition can be mapped, then mupgrade_firmware_check returns MDF_OK exactly if the string of
-- the flag, of 1 to 32 bytes, stands in the partition at an offset of at most the partition's size
-- minus twice the string's length plus one. A flag behind that, in the last bytes of a partition, is
-- not found.
pub firmware_check_iff :
    (flag : List ℕ) (partition : Partition)
    → 0 < strlen flag
    → strlen flag ≤ 32
    → strlen flag ≤ partition.size
    → (firmware_check flag mdf_ok (some partition) ≡ mdf_ok) ↔ (
        (s : ℕ) × (s + 2 * strlen flag ≤ partition.size + 1)
        × Agrees partition.bytes flag s (strlen flag))
firmware_check_iff flag partition pos short fits =
    let found =
      kmp_find_iff partition.bytes partition.size flag (strlen flag)
        (replicate firmware_flag_size 0) pos short (omega (arith, short)) fits in
    let same = firmware_check-find flag partition short in
    (λ ok. found.0 (same.0 ok), λ occurs. same.1 (found.1 occurs))

-- The fall-back changes what boots only if the partition passes the test of the image.
pub version_fallback-checked :
    (flag : List ℕ) (api : FallbackApi) (p : Partition)
    → (version_fallback flag api).1 ≡ some p
    → firmware_check flag api.mapped (some p) ≡ mdf_ok
unfolding version_fallback
version_fallback-checked flag api p boots = ground arith

-- The stored count after these operations, if no timer runs out in between.
abbrev after : Option ℕ → List CountOp → Option ℕ
after n [] = n
after n (save m ∷ ops) = after (some m) ops
after n (start_timer ∷ ops) = after n ops
after n (erase ∷ ops) = after none ops

abbrev restart_api : Bool → Option ℕ → RestartApi
restart_api first n = record { first_start = first; stored = n; saved = mdf_ok; timer = true }

-- Whether the last of `k` restarts after a power-on fires, and the count that it leaves. No call fails
-- and each restart comes before the timer erases the count.
pub restarts : ℕ → Option ℕ → Bool × Option ℕ
restarts zero n = let (fires, ops) = restart_trigger (restart_api true n) in (fires, after n ops)
restarts (suc k) n =
    let (before, m) = restarts k n in
    let (fires, ops) = restart_trigger (restart_api false m) in (fires, after m ops)

soft_restart :
    (k : ℕ)
    → k < 13
    → ((restart_trigger (restart_api false (some (k + 1)))).0 ≡ false)
      × (after (some (k + 1)) (restart_trigger (restart_api false (some (k + 1)))).1
          ≡ some (suc k + 1))
unfolding restart_trigger
soft_restart k h = (ground arith, ground arith)

restarts-below : (k : ℕ) (n : Option ℕ) → k < 14 → restarts k n ≡ (false, some (k + 1))
unfolding restarts restart_trigger
restarts-below zero n h = refl
restarts-below (suc k) n h =
    rw (restarts-below k n (omega arith)) (ground (arith, soft_restart k (omega arith)))

-- Whatever count was stored before a power-on, the power-on and the first 13 restarts after it do not
-- fire and leave the number of starts so far as the stored count; the fourteenth restart, which is the
-- fifteenth start, fires and erases the count. No call is taken to fail, and each restart to come
-- before the timer erases the count.
restarts-fire :
    (n : Option ℕ)
    → ((k : ℕ) → k < 14 → restarts k n ≡ (false, some (k + 1))) × (restarts 14 n ≡ (true, none))
unfolding restarts restart_trigger
restarts-fire n = (λ k h. restarts-below k n h, refl)
