-- ===== src/Mupgrade/Download/Finish.antt =====
-- When a download counts as finished, and what happens after a failure.
use pio_esp_mdf_example.Prelude.{
  ℕ, ◌+◌, ◌%◌, ◌^◌, ◌≡◌, ◌≢◌, true, false, List, [], ◌∷◌, some, arith, ltb, length, ◌⊎◌,
}
use pio_esp_mdf_example.Mcommon.Err.{mdf_ok}
use pio_esp_mdf_example.Mupgrade.Err.{err_firmware_finish}
use pio_esp_mdf_example.Mupgrade.Download.{
  Config, Root, DownloadApi, finish, firmware_init, firmware_download, firmware_stop, queue_deleted,
  ota_abort, ota_begin,
}

-- If mupgrade_firmware_download leaves the state that mupgrade_firmware_send asks for, and no error of
-- the OTA library is that number, then the data were written, they were the last of the firmware, and
-- esp_ota_end and mupgrade_firmware_check have succeeded; or else the call was refused, and the state
-- is as before.
pub download_finishes :
    (api : DownloadApi) (root : Root) (c c' : Config) (bytes : List ℕ)
    → root.config ≡ some c
    → api.write ≢ err_firmware_finish
    → api.end ≢ err_firmware_finish
    → api.check ≢ err_firmware_finish
    → (firmware_download api root (some bytes)).root.config ≡ some c'
    → c'.error_code ≡ err_firmware_finish
    → ((c.error_code ≡ err_firmware_finish) × (c' ≡ c))
      ⊎ ((api.write ≡ mdf_ok)
          × ((c.written_size + length bytes) % 2 ^ 32 ≡ c.total_size)
          × (api.end ≡ mdf_ok)
          × (api.check ≡ mdf_ok))
unfolding firmware_download finish
download_finishes api root c c' bytes e hw he hc e' f = ground arith

-- mupgrade_firmware_init returns MDF_OK when esp_ota_begin fails; the error comes out of each later
-- call of mupgrade_firmware_download, which writes nothing.
init_hides_error :
    (api api' : DownloadApi) (root : Root) (address size partition_size : ℕ) (bytes : List ℕ)
    → api.running_partition ≡ true
    → api.update ≡ some (address, partition_size)
    → api.memory ≡ true
    → api.begin ≢ mdf_ok
    → size ≢ 0
    → ltb partition_size size ≡ false
    → length bytes ≢ 0
    → ((firmware_init api root true size).ret ≡ mdf_ok)
      × ((firmware_download api' (firmware_init api root true size).root (some bytes)) ≡ record {
        ret = api.begin;
        root = (firmware_init api root true size).root;
        effects = [];
      })
unfolding firmware_init firmware_download
init_hides_error api api' root address size partition_size bytes running found memory failed pos
      fits some_bytes =
    ground arith

-- After mupgrade_firmware_stop has stopped a running upgrade the queue is deleted, and
-- mupgrade_firmware_init does not create another, since the configuration is still there: the queue
-- that later calls use is the deleted one.
stop_loses_queue :
    (api : DownloadApi) (root : Root) (c : Config) (address size partition_size : ℕ)
    → root.config ≡ some c
    → root.running ≡ true
    → api.running_partition ≡ true
    → api.update ≡ some (address, partition_size)
    → size ≢ 0
    → ltb partition_size size ≡ false
    → ((firmware_stop root).effects ≡ queue_deleted ∷ ota_abort ∷ [])
      × ((firmware_init api (firmware_stop root).root true size).effects
          ≡ ota_abort ∷ ota_begin ∷ [])
unfolding firmware_stop firmware_init
stop_loses_queue api root c address size partition_size e running partition found pos fits =
    ground arith
