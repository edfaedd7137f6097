-- ===== src/Mupgrade/Download.antt =====
-- The download of the firmware to the root: mupgrade_firmware_init, mupgrade_firmware_download,
-- mupgrade_firmware_download_finished, mupgrade_root_handle and mupgrade_firmware_stop of
-- esp-mdf/components/mupgrade/mupgrade_root.c. The handle, the start time and the name are left out,
-- since the code only hands them on.
pub mod Finish
mod Tests
use pio_esp_mdf_example.Prelude.{
  ℕ, ◌+◌, ◌%◌, ◌^◌, Bool, true, false, not, ◌&&◌, ◌||◌, List, [], ◌∷◌, ◌++◌, Option, none, some,
  ltb, ◌==◌, if◌then◌else◌, length,
}
use pio_esp_mdf_example.Mcommon.Err.{
  Err, mdf_ok, mdf_err_no_mem, mdf_err_invalid_arg, mdf_err_not_supported, mdf_err_timeout,
}
use pio_esp_mdf_example.Mupgrade.Err.{
  err_firmware_not_init, err_firmware_partition, err_firmware_invalid, err_firmware_finish,
}

-- The part of g_upgrade_config that the download uses; the partition is its address.
pub record Config : Type 0 where
  pub partition : ℕ
  pub error_code : Err
  pub total_size : ℕ
  pub written_size : ℕ

-- g_upgrade_config, g_mupgrade_send_running_flag, and whether g_mupgrade_send_exit_sem is there
pub record Root : Type 0 where
  pub config : Option Config
  pub running : Bool
  pub exit_sem : Bool

pub data Effect : Type 0 where
  ota_begin ota_abort ota_end download_started : Effect
  queue_created queue_deleted : Effect
  ota_write : List ℕ → Effect
  queued : ℕ → List ℕ → Effect

-- What the system answers: the running partition, the next update partition with its size, memory,
-- and the results of the calls of the OTA library, of mupgrade_firmware_check and of xQueueSend.
pub record DownloadApi : Type 0 where
  pub running_partition : Bool
  pub update : Option (ℕ × ℕ)
  pub memory : Bool
  pub begin : Err
  pub write : Err
  pub end : Err
  pub check : Err
  pub sent : Bool

pub record Done : Type 0 where
  pub ret : Err
  pub root : Root
  pub effects : List Effect

-- OTA_SIZE_UNKNOWN of the OTA library
abbrev pub ota_size_unknown : ℕ
ota_size_unknown = 0xffff_ffff

-- `name` is whether the name is not a null pointer.
unfoldable pub firmware_init : DownloadApi → Root → Bool → ℕ → Done
firmware_init api root name size =
    let fail = λ (e : Err). let d : Done = record { ret = e; root = root; effects = [] } in d in
    if not name || size == 0
    then fail mdf_err_invalid_arg
    else if not api.running_partition
    then fail err_firmware_partition
    else elim (api.update) [
      | none ↦ fail err_firmware_partition
      | some (address, partition_size) ↦
          let config : Config = record {
            partition = address;
            error_code = api.begin;
            total_size = size;
            written_size = 0;
          } in
          let first : List Effect = elim (root.config) [
            | none ↦ queue_created ∷ ota_begin ∷ []
            | some _ ↦ ota_abort ∷ ota_begin ∷ []
          ] in
          let there : Bool = elim (root.config) [ none ↦ api.memory | some _ ↦ true ] in
          if not (size == ota_size_unknown) && ltb partition_size size
          then fail mdf_err_invalid_arg
          else if not there
          then fail mdf_err_no_mem
          else record { ret = mdf_ok; root = record root { config = some config }; effects = first }
    ]

-- mupgrade_firmware_download_finished with the configuration.
unfoldable pub finish : DownloadApi → Root → Config → ℕ → Done
finish api root c total =
    let with_code = λ (e : Err).
      let r : Root = record root {
        config = some (record c { total_size = total; error_code = e });
      } in
      r in
    if not (api.end == mdf_ok)
    then record { ret = err_firmware_invalid; root = with_code api.end; effects = ota_end ∷ [] }
    else if not (api.check == mdf_ok)
    then record { ret = api.check; root = with_code api.check; effects = ota_end ∷ [] }
    else record { ret = mdf_ok; root = with_code err_firmware_finish; effects = ota_end ∷ [] }

unfoldable pub download_finished : DownloadApi → Root → ℕ → Done
download_finished api root total = elim (root.config) [
  | none ↦ record { ret = err_firmware_not_init; root = root; effects = [] }
  | some c ↦ finish api root c total
]

-- A null pointer to the data is `none`, and `size` the length of the list.
unfoldable pub firmware_download : DownloadApi → Root → Option (List ℕ) → Done
firmware_download api root none = record { ret = mdf_err_invalid_arg; root = root; effects = [] }
firmware_download api root (some bytes) = elim (root.config) [
  | none ↦
      if length bytes == 0
      then record { ret = mdf_err_invalid_arg; root = root; effects = [] }
      else record { ret = err_firmware_not_init; root = root; effects = [] }
  | some c ↦
      let first = if c.written_size == 0 then download_started ∷ [] else [] in
      let failed : Config = record c { error_code = api.write } in
      let c' : Config = record c {
        error_code = mdf_ok;
        written_size = (c.written_size + length bytes) % 2 ^ 32;
      } in
      let root' : Root = record root { config = some c' } in
      let done = finish api root' c' c'.total_size in
      if length bytes == 0
      then record { ret = mdf_err_invalid_arg; root = root; effects = [] }
      else if not (c.error_code == mdf_ok)
      then record { ret = c.error_code; root = root; effects = [] }
      else if not (api.write == mdf_ok)
      then record { ret = api.write; root = record root { config = some failed }; effects = first }
      else if c'.written_size == c'.total_size
      then record done { effects = first ++ ota_write bytes ∷ done.effects }
      else record { ret = mdf_ok; root = root'; effects = first ++ ota_write bytes ∷ [] }
]

-- mupgrade_root_handle: a report of a device goes to the queue while firmware is sent. A null pointer
-- is `none`.
unfoldable pub root_handle : DownloadApi → Root → Option ℕ → Option (List ℕ) → Done
root_handle api root none bytes = record { ret = mdf_err_invalid_arg; root = root; effects = [] }
root_handle api root (some addr) none = record {
  ret = mdf_err_invalid_arg;
  root = root;
  effects = [];
}
root_handle api root (some addr) (some bytes) =
    let answer = λ (e : Err). let d : Done = record { ret = e; root = root; effects = [] } in d in
    if length bytes == 0 then answer mdf_err_invalid_arg else elim (root.config) [
      | none ↦ answer err_firmware_not_init
      | some c ↦
          if not root.running
          then answer mdf_err_not_supported
          else if not api.memory
          then answer mdf_err_no_mem
          else if not api.sent
          then answer mdf_err_timeout
          else record { ret = mdf_ok; root = root; effects = queued addr bytes ∷ [] }
    ]

-- mupgrade_firmware_stop, when the task that sends has given the semaphore back.
unfoldable pub firmware_stop : Root → Done
firmware_stop root =
    if not root.running then record { ret = mdf_ok; root = root; effects = [] } else record {
      ret = mdf_ok;
      root = record root { running = false; exit_sem = false };
      effects = queue_deleted ∷ ota_abort ∷ [];
    }
