-- ===== src/Mdebug/Tests.antt =====
-- Runs of the debug log, and its theorems at concrete inputs.
use pio_esp_mdf_example.Prelude.{
  ℕ, ◌+◌, ◌≡◌, refl, true, [], ◌∷◌, some, ltb, ◌==◌, if◌then◌else◌, arith, inl,
}
use pio_esp_mdf_example.Mcommon.Err.{mdf_ok}
use pio_esp_mdf_example.Mdebug.Flash.{Log, FlashApi, mdebug_flash_write, mdebug_flash_read}
use pio_esp_mdf_example.Mdebug.Flash.Queue.{content}
use pio_esp_mdf_example.Mdebug.Flash.Read.{read-content}
use pio_esp_mdf_example.Mdebug.Flash.Place.{IsLog}
use pio_esp_mdf_example.Mdebug.Flash.Write.{write-content}

-- A flash that loses a byte that is written twice.
abbrev program : ℕ → ℕ → ℕ
program old new = if old == 0xff then new else 0

program_blank : (b : ℕ) → program 0xff b ≡ b
program_blank b = refl

abbrev api : FlashApi
api = record {
  erase_ret = mdf_ok;
  stamp_ret = mdf_ok;
  data_ret = mdf_ok;
  failed_cells = λ i. 0;
  stamp = 91 ∷ 93 ∷ [];
  ticks = 5;
  read_ret = λ k. mdf_ok;
}

-- Two bytes in the second file, one of them read, and three in the first, where the log goes on.
abbrev log : Log
log = record {
  inited = true;
  index = 0;
  file0 = record { size = 3; offset = 0; addr = 0 };
  file1 = record { size = 2; offset = 1; addr = 32 };
  stamp_next = true;
  event_tick = 0;
  cells =
      λ i. if ltb i 3 then 65 + i else if ltb i 32 then 0xff else if ltb i 34 then 48 + i else 0xff;
}

read-content_example :
    ((mdebug_flash_read api log true 3).1 ≡ 81 ∷ 65 ∷ 66 ∷ [])
    × (content (mdebug_flash_read api log true 3).2 ≡ 67 ∷ [])
    × ((mdebug_flash_read api log true 3).0 ≡ mdf_ok)
read-content_example =
    read-content api log 3 (λ k. refl) refl (omega arith) (omega arith, omega arith)
      (omega arith, omega arith) (omega arith)

log-IsLog : IsLog program 64 0 program_blank log
log-IsLog = (
  omega arith,
  (omega arith, omega arith, λ i low high. ground (arith, low, high)),
  (omega arith, omega arith, λ i low high. ground (arith, low, high)),
  inl (omega arith),
)

write-content_example :
    ((mdebug_flash_write program 64 0 api log (some (1 ∷ 2 ∷ []))).0 ≡ mdf_ok)
    × IsLog program 64 0 program_blank
        (mdebug_flash_write program 64 0 api log (some (1 ∷ 2 ∷ []))).2
    × (content (mdebug_flash_write program 64 0 api log (some (1 ∷ 2 ∷ []))).2
        ≡ 81 ∷ 65 ∷ 66 ∷ 67 ∷ 91 ∷ 93 ∷ 1 ∷ 2 ∷ [])
write-content_example =
    write-content program 64 0 program_blank api refl refl log (1 ∷ 2 ∷ []) log-IsLog refl refl
      (omega arith) (omega arith)
