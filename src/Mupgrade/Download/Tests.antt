-- ===== src/Mupgrade/Download/Tests.antt =====
-- The theorems on the download at concrete inputs.
use pio_esp_mdf_example.Prelude.{
  ℕ, ◌+◌, ◌%◌, ◌^◌, ◌≡◌, refl, true, false, List, [], ◌∷◌, some, arith, length, ◌⊎◌,
}
use pio_esp_mdf_example.Mcommon.Err.{mdf_ok}
use pio_esp_mdf_example.Mupgrade.Err.{err_firmware_finish}
use pio_esp_mdf_example.Mupgrade.Download.{Config, Root, DownloadApi, finish, firmware_download}
use pio_esp_mdf_example.Mupgrade.Download.Finish.{download_finishes}

abbrev api : DownloadApi
api = record {
  running_partition = true;
  update = some (1, 4096);
  memory = true;
  begin = mdf_ok;
  write = mdf_ok;
  end = mdf_ok;
  check = mdf_ok;
  sent = true;
}

abbrev config : Config
config = record { partition = 1; error_code = mdf_ok; total_size = 3; written_size = 1 }

abbrev root : Root
root = record { config = some config; running = true; exit_sem = false }

abbrev last : List ℕ
last = 7 ∷ 8 ∷ []

last_bytes :
    (firmware_download api root (some last)).root.config
    ≡ some (record config { error_code = err_firmware_finish; written_size = 3 })
unfolding firmware_download finish
last_bytes = refl

download_finishes_example :
    ((config.error_code ≡ err_firmware_finish)
      × (record config { error_code = err_firmware_finish; written_size = 3 } ≡ config))
    ⊎ ((api.write ≡ mdf_ok)
        × ((config.written_size + length last) % 2 ^ 32 ≡ config.total_size)
        × (api.end ≡ mdf_ok)
        × (api.check ≡ mdf_ok))
download_finishes_example =
    download_finishes api root config
      (record config { error_code = err_firmware_finish; written_size = 3 }) last refl
      (ground arith) (ground arith) (ground arith) last_bytes refl
