-- ===== src/Mupgrade/Node/Write.antt =====
-- mupgrade_write of esp-mdf/components/mupgrade/mupgrade_node.c.
use pio_esp_mdf_example.Prelude.{
  ℕ, ◌+◌, ◌*◌, ◌/◌, ◌%◌, ◌^◌, Bool, true, false, not, List, [], ◌∷◌, ◌++◌, Option, none, some, take,
  length, ltb, leb, ◌==◌, if◌then◌else◌,
}
use pio_esp_mdf_example.Mcommon.Err.{mdf_ok, mdf_err_no_mem, mdf_err_invalid_arg}
use pio_esp_mdf_example.Mupgrade.Err.{err_stop, err_not_init, err_firmware_download}
use pio_esp_mdf_example.Mupgrade.Progress.{get_bit, set_bit, packet_max_size}
use pio_esp_mdf_example.Mupgrade.Node.{
  Status, Config, Node, NodeApi, Done, Effect, report, info_save, info_erase, ota_end, set_boot,
  finish, send, flash_write, saved, status_size, cleared,
}

-- mupgrade_packet_t; `size` bytes of the data are written.
pub record Packet : Type 0 where
  pub seq : ℕ
  pub size : ℕ
  pub bytes : List ℕ

-- CONFIG_MUPGRADE_STATUS_REPORT_INTERVAL
abbrev pub report_interval : ℕ
report_interval = 10

-- The effects of the report of the progress, and the new percentage to wait for.
unfoldable pub progress_report : Status → ℕ → ℕ × List Effect
progress_report s next =
    let percentage = s.written_size * 100 % 2 ^ 32 / s.total_size in
    if percentage == next
    then ((next + report_interval) % 2 ^ 32, info_save (saved s) ∷ report percentage ∷ [])
    else if ltb next percentage
    then (((percentage / report_interval + 1) * report_interval) % 2 ^ 32, [])
    else (next, [])

-- The status with the packet in it.
abbrev pub noted : Status → Packet → Status
noted s p = record s {
  progress_array = set_bit s.progress_array p.seq;
  written_size = (s.written_size + p.size) % 2 ^ 32;
}

-- What follows when a packet has been written to the flash. No result is the division by the total
-- size when that is 0.
unfoldable pub note_written : NodeApi → Node → Config → Packet → Option Done
note_written api node c p =
    let s = noted c.status p in
    let c' : Config = record c { status = s } in
    let (next, reports) = progress_report s node.next_percentage in
    let node' : Node = record node { config = some c'; next_percentage = next } in
    let written = flash_write (p.seq * packet_max_size) (take p.size p.bytes) in
    let failed : Status = record s { written_size = 0; error_code = err_stop } in
    if s.total_size == 0
    then none
    else if not (s.written_size == s.total_size)
    then some (record { ret = mdf_ok; node = node'; effects = written ∷ reports })
    else if not (api.boot == mdf_ok)
    then some (record {
      ret = api.boot;
      node = record node' { config = some (record c' { status = failed }) };
      effects = written ∷ reports ++ ota_end ∷ info_erase ∷ set_boot ∷ [];
    })
    else some (record {
      ret = if api.sent == mdf_ok then mdf_ok else api.sent;
      node = record node' { finished = true };
      effects =
          written ∷ reports ++ ota_end ∷ info_erase ∷ set_boot ∷ finish ∷ send s status_size ∷ [];
    })

-- The macro MUPGRADE_GET_BITS reads a byte past the progress array.
abbrev pub is_past : List ℕ → ℕ → Bool
is_past progress_array seq = leb (length progress_array) (seq / 8)

abbrev pub is_null : Option ℕ → Bool
is_null none = true
is_null (some partition) = false

-- mupgrade_write with the configuration. No result is also the access past the progress array, and the
-- write to a null partition, which esp_partition_write does not take.
unfoldable pub write_configured : NodeApi → Node → Config → Packet → Option Done
write_configured api node c p =
    let s = cleared c.status in
    let node' : Node = record node { config = some c } in
    if c.status.error_code == err_stop
    then some (record {
      ret = if api.sent == mdf_ok then mdf_ok else api.sent;
      node = record node { config = some (record c { status = s }) };
      effects = info_erase ∷ send s status_size ∷ [];
    })
    else if ltb c.status.total_size (p.seq * packet_max_size)
    then some (record { ret = mdf_err_invalid_arg; node = node'; effects = [] })
    else if is_past c.status.progress_array p.seq
    then none
    else if get_bit c.status.progress_array p.seq
    then some (record { ret = mdf_ok; node = node'; effects = [] })
    else if is_null c.partition
    then none
    else if not (api.write c.partition (p.seq * packet_max_size) (take p.size p.bytes) == mdf_ok)
    then some (record { ret = err_firmware_download; node = node'; effects = [] })
    else note_written api node' c p

-- The whole function; an empty configuration is loaded first, and dropped if there is none.
unfoldable pub mupgrade_write : NodeApi → Node → Packet → Option Done
mupgrade_write api node p = elim (node.config) [
  | some c ↦ write_configured api node c p
  | none ↦
      if not api.memory
      then some (record { ret = mdf_err_no_mem; node = node; effects = [] })
      else if not (api.load.0 == mdf_ok)
      then some (record { ret = err_not_init; node = node; effects = [] })
      else write_configured api node (record (api.load.1) { partition = api.update }) p
]
