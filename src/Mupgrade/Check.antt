-- ===== src/Mupgrade/Check.antt =====
-- esp-mdf/components/mupgrade/mupgrade_check.c, but for the search itself: the test of an image, the
-- fall-back to the previous version, and its trigger by repeated restarts.
pub mod Flag
use pio_esp_mdf_example.Prelude.{
  ℕ, suc, ◌+◌, ◌%◌, ◌^◌, Bool, true, false, not, List, [], ◌∷◌, Option, none, some, ltb, ◌==◌,
  if◌then◌else◌, replicate,
}
use pio_esp_mdf_example.Mcommon.Err.{Err, mdf_ok, mdf_err_invalid_arg}
use pio_esp_mdf_example.Mupgrade.Err.{err_firmware_invalid}
use pio_esp_mdf_example.Mupgrade.Kmp.{kmp_find, kmp_next}

-- esp_partition_t, as far as it is used: its size and what stands in it.
pub record Partition : Type 0 where
  pub size : ℕ
  pub bytes : List ℕ

-- MUPGRADE_FIRMWARE_FLAG_SIZE
abbrev pub firmware_flag_size : ℕ
firmware_flag_size = 32

-- strlen
abbrev pub strlen : List ℕ → ℕ
strlen [] = 0
strlen (c ∷ s) = if c == 0 then 0 else suc (strlen s)

-- mupgrade_firmware_check under CONFIG_MUPGRADE_FIRMWARE_CHECK. `flag` is the array that
-- MUPGRADE_FIRMWARE_FLAG initialises, `mapped` the result of esp_partition_mmap.
unfoldable pub firmware_check : List ℕ → Err → Option Partition → Err
firmware_check flag mapped none = mdf_err_invalid_arg
firmware_check flag mapped (some partition) =
    let flag_size =
      if ltb firmware_flag_size (strlen flag) then firmware_flag_size else strlen flag in
    let next = kmp_next flag flag_size (replicate firmware_flag_size 0) in
    if not (mapped == mdf_ok)
    then mapped
    else if not (kmp_find partition.bytes partition.size flag flag_size next == mdf_ok)
    then err_firmware_invalid
    else mdf_ok

-- What mupgrade_version_fallback asks the system: the factory partition, if it is compiled in and
-- there; the next update partition; the results of the mapping and of esp_ota_set_boot_partition.
pub record FallbackApi : Type 0 where
  pub factory : Option Partition
  pub next_update : Option Partition
  pub mapped : Err
  pub set_boot : Err

-- The partition that is to boot next, if it was changed.
unfoldable pub version_fallback : List ℕ → FallbackApi → Err × Option Partition
version_fallback flag api =
    let partition : Option Partition = elim api.factory [
      | none ↦ api.next_update
      | some p ↦ some p
    ] in
    let checked = firmware_check flag api.mapped partition in
    if not (checked == mdf_ok)
    then (checked, none)
    else if not (api.set_boot == mdf_ok)
    then (api.set_boot, none)
    else (mdf_ok, partition)

-- What restart_trigger is told: whether the reset was a power-on, a watchdog reset of the RTC, a wake
-- from deep sleep or a brown-out; the stored count; the result of saving it; whether there is a timer.
pub record RestartApi : Type 0 where
  pub first_start : Bool
  pub stored : Option ℕ
  pub saved : Err
  pub timer : Bool

abbrev pub restart_count_max : ℕ
restart_count_max = 15

-- The operations on the stored count.
pub data CountOp : Type 0 where
  save : ℕ → CountOp
  start_timer erase : CountOp

unfoldable pub restart_trigger : RestartApi → Bool × List CountOp
restart_trigger api =
    let loaded : ℕ = elim api.stored [ none ↦ 0 | some n ↦ n ] in
    let count = if api.first_start then 1 else (loaded + 1) % 2 ^ 32 in
    if not (api.saved == mdf_ok)
    then (false, save count ∷ [])
    else if not api.timer
    then (false, save count ∷ [])
    else if ltb count restart_count_max
    then (false, save count ∷ start_timer ∷ [])
    else (true, save count ∷ start_timer ∷ erase ∷ [])

-- mupgrade_version_fallback_task: whether the device restarts, and what boots then.
unfoldable pub fallback_task : List ℕ → RestartApi → FallbackApi → Bool × Option Partition
fallback_task flag restarts api =
    let (ret, boot) = version_fallback flag api in
    if (restart_trigger restarts).0
    then (if ret == mdf_ok then (true, boot) else (false, boot))
    else (false, none)
