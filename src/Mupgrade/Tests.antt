-- ===== src/Mupgrade/Tests.antt =====
-- Runs of the mupgrade component, and its theorems at concrete inputs.
use pio_esp_mdf_example.Prelude.{
  count, ℕ, ◌+◌, ◌≤◌, ◌≡◌, ◌≢◌, ◌↔◌, refl, true, List, [], ◌∷◌, ◌++◌, none, some, arith, replicate,
}
use pio_esp_mdf_example.Mcommon.Err.{mdf_ok, mdf_fail}
use pio_esp_mdf_example.Mupgrade.Kmp.{kmp_next, kmp_find, next_loop, find_loop, fall_back}
use pio_esp_mdf_example.Mupgrade.Kmp.Fall.{Agrees, IsTable}
use pio_esp_mdf_example.Mupgrade.Kmp.Next.{kmp_next-IsTable}
use pio_esp_mdf_example.Mupgrade.Kmp.Find.{kmp_find_iff}
use pio_esp_mdf_example.Mupgrade.Check.{Partition, firmware_check, FallbackApi, version_fallback}
use pio_esp_mdf_example.Mupgrade.Err.{err_firmware_finish}
use pio_esp_mdf_example.Mupgrade.Progress.{get_bit, filled, merge, all_written}
use pio_esp_mdf_example.Mupgrade.Root.{
  Result, Report, Queue, addrs_remove, note_finished, drain_finished, note_response, collect, ask,
  request_status,
}
use pio_esp_mdf_example.Mupgrade.Root.Count.{tally, tally-request_status}
use pio_esp_mdf_example.Mupgrade.Send.{
  SendApi, note_sending, drain_sending, destination, send_packets, send_rounds, devices, send,
  firmware_send,
}
use pio_esp_mdf_example.Mupgrade.Send.Devices.{send_conserves}
use pio_esp_mdf_example.Mupgrade.Send.Packets.{AllInside, firmware_send-AllInside}
use pio_esp_mdf_example.Mupgrade.Check.Flag.{firmware_check_iff, version_fallback-checked}

-- abab
abbrev target : List ℕ
target = 1 ∷ 2 ∷ 1 ∷ 2 ∷ []

abbrev buffer : List ℕ
buffer = replicate 32 0

-- The table of the borders.
kmp_next_run : kmp_next target 4 (9 ∷ 9 ∷ 9 ∷ 9 ∷ []) ≡ 0 ∷ 0 ∷ 1 ∷ 2 ∷ []
unfolding kmp_next next_loop fall_back
kmp_next_run = refl

-- The target stands at the end of the source, and is not found.
kmp_find_misses_end : kmp_find (9 ∷ target) 5 target 4 (0 ∷ 0 ∷ 1 ∷ 2 ∷ []) ≡ mdf_fail
unfolding kmp_find find_loop fall_back
kmp_find_misses_end = refl

kmp_find_hit : kmp_find (1 ∷ target ++ 0 ∷ 0 ∷ 0 ∷ 0 ∷ []) 9 target 4 (0 ∷ 0 ∷ 1 ∷ 2 ∷ []) ≡ mdf_ok
unfolding kmp_find find_loop fall_back
kmp_find_hit = refl

kmp_next-IsTable_example : IsTable target (kmp_next target 4 buffer) 4
kmp_next-IsTable_example =
    kmp_next-IsTable target 4 buffer (omega arith) (omega arith) (omega arith)

kmp_find_iff_example :
    (kmp_find (9 ∷ target) 5 target 4 (kmp_next target 4 buffer) ≡ mdf_ok)
    ↔ ((s : ℕ) × (s + 8 ≤ 6) × Agrees (9 ∷ target) target s 4)
kmp_find_iff_example =
    kmp_find_iff (9 ∷ target) 5 target 4 buffer (omega arith) (omega arith) (omega arith)
      (omega arith)

abbrev image : Partition
image = record { size = 9; bytes = 1 ∷ 1 ∷ 2 ∷ 1 ∷ 2 ∷ 0 ∷ 0 ∷ 0 ∷ 0 ∷ [] }

firmware_check_iff_example :
    (firmware_check target mdf_ok (some image) ≡ mdf_ok)
    ↔ ((s : ℕ) × (s + 8 ≤ 10) × Agrees image.bytes target s 4)
firmware_check_iff_example =
    firmware_check_iff target image (omega arith) (omega arith) (omega arith)

abbrev fallback : FallbackApi
fallback = record { factory = none; next_update = some image; mapped = mdf_ok; set_boot = mdf_ok }

version_fallback-checked_example : firmware_check target mdf_ok (some image) ≡ mdf_ok
unfolding version_fallback firmware_check kmp_find kmp_next next_loop find_loop fall_back
version_fallback-checked_example = version_fallback-checked target fallback image refl

-- Two devices, and a report of device 2 that has written `written` of 2000 bytes.
abbrev report : ℕ → Report
report written = record {
  src_addr = 2;
  error_code = mdf_ok;
  total_size = 2000;
  written_size = written;
  progress_array = [];
}

abbrev two_devices : Result
two_devices = record { unfinished = 1 ∷ 2 ∷ []; successed = []; requested = 1 ∷ 2 ∷ [] }

abbrev reports : Queue
reports = none ∷ some (report 0) ∷ none ∷ none ∷ some (report 2000) ∷ []

abbrev send_api : SendApi
send_api = record {
  table_size = 2;
  table = 1 ∷ 2 ∷ [];
  table_ret = mdf_ok;
  root_mac = 1;
  packet_memory = true;
  progress_memory = true;
  result_memory = true;
  list_memory = true;
  flash = λ i seq. mdf_ok;
  running_round = λ i. true;
  running_packet = λ i seq. true;
}

tally-request_status_example :
    tally 2 (request_status (filled 0) two_devices reports).result ≤ tally 2 two_devices
tally-request_status_example = tally-request_status 2 (filled 0) two_devices reports

send_conserves_example :
    (tally 2 (send send_api (2 ∷ []) 2000 reports).result ≤ count 2 (devices send_api (2 ∷ [])).1)
    × (((send send_api (2 ∷ []) 2000 reports).ret ≡ mdf_ok)
        ↔ ((send send_api (2 ∷ []) 2000 reports).result.unfinished ≡ []))
send_conserves_example = send_conserves send_api (2 ∷ []) 2000 reports 2

-- Both packets are sent, and the report that follows ends the call.
finished_run :
    firmware_send send_api (some (2 ∷ [])) (some (err_firmware_finish, 2000)) reports
    ≡ some (send send_api (2 ∷ []) 2000 reports)
unfolding firmware_send
finished_run = refl

sends_run : (send send_api (2 ∷ []) 2000 reports).sent ≢ []
unfolding send devices send_rounds send_packets request_status drain_finished note_finished
    addrs_remove ask collect note_response drain_sending note_sending destination get_bit merge
    all_written
sends_run e = ground arith

firmware_send-AllInside_example :
    (err_firmware_finish ≡ err_firmware_finish)
    × AllInside 2000 (send send_api (2 ∷ []) 2000 reports).sent
firmware_send-AllInside_example =
    firmware_send-AllInside send_api (2 ∷ []) err_firmware_finish 2000 reports (omega arith)
      (omega arith) finished_run sends_run

send_run :
    (send send_api (2 ∷ []) 2000 reports).result
    ≡ record { unfinished = []; successed = 2 ∷ []; requested = [] }
unfolding send devices send_rounds send_packets request_status drain_finished note_finished
    addrs_remove ask collect note_response drain_sending note_sending destination get_bit merge
    all_written
send_run = refl
