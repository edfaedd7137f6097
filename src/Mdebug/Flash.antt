-- ===== src/Mdebug/Flash.antt =====
-- esp-mdf/components/mdebug/mdebug_flash.c: the log in two files of a flash partition, which are
-- written in turn.
pub mod Cells
pub mod Queue
pub mod Read
pub mod Place
pub mod Append
pub mod Write
use pio_esp_mdf_example.Prelude.{
  ℕ, zero, suc, ◌+◌, ◌-◌, ◌*◌, ◌/◌, ◌%◌, ◌^◌, min, Bool, true, false, not, ◌&&◌, ◌||◌, List, [],
  ◌∷◌, ◌++◌, Option, none, some, length, ltb, leb, get_or, ◌==◌, if◌then◌else◌,
}
use pio_esp_mdf_example.Mcommon.Err.{
  Err, mdf_ok, mdf_fail, mdf_err_invalid_arg, mdf_err_not_supported,
}

-- flash_log_info_t
pub record LogFile : Type 0 where
  pub size : ℕ
  pub offset : ℕ
  pub addr : ℕ

-- The static variables of the file, g_log_info as its two entries, and the bytes of the partition.
-- `stamp_next` is flag_timestamp, and `event_tick` s_event_send_tick.
pub record Log : Type 0 where
  pub inited : Bool
  pub index : ℕ
  pub file0 : LogFile
  pub file1 : LogFile
  pub stamp_next : Bool
  pub event_tick : ℕ
  pub cells : ℕ → ℕ

abbrev pub file : Log → ℕ → LogFile
file m i = if i == 0 then m.file0 else m.file1

abbrev pub set_file : Log → ℕ → LogFile → Log
set_file m i f = if i == 0 then record m { file0 = f } else record m { file1 = f }

abbrev pub read_cells : (ℕ → ℕ) → ℕ → ℕ → List ℕ
read_cells cells a zero = []
read_cells cells a (suc n) = cells a ∷ read_cells cells (a + 1) n

-- What the partition answers to a call: for an erasure and the two writes of mdebug_flash_write the
-- result, and what the bytes are if one fails; the time stamp and the ticks; and the results of the
-- reads of the two files.
pub record FlashApi : Type 0 where
  pub erase_ret : Err
  pub stamp_ret : Err
  pub data_ret : Err
  pub failed_cells : ℕ → ℕ
  pub stamp : List ℕ
  pub ticks : ℕ
  pub read_ret : ℕ → Err

-- The size of each file.
abbrev pub half : ℕ → ℕ
half max_size = max_size / 2

abbrev pub erase_cells : (ℕ → ℕ) → ℕ → ℕ → ℕ → ℕ
erase_cells cells a n i = if leb a i && ltb i (a + n) then 0xff else cells i

-- The change to the other file, once it is erased.
abbrev pub switched : Log → Log
switched m =
    let other = (m.index + 1) % 2 in
    let f : LogFile = record (file m other) { size = 0; offset = 0 } in
    set_file (record m { index = other }) other f

abbrev last_byte : List ℕ → ℕ
last_byte [] = 0
last_byte (x ∷ []) = x
last_byte (x ∷ y ∷ xs) = last_byte (y ∷ xs)

unfoldable pub mdebug_flash_size : Log → ℕ
mdebug_flash_size m =
    let unread = λ (f : LogFile). if leb f.offset f.size then f.size - f.offset else 0 in
    if not m.inited then 0 else unread m.file0 + unread m.file1

-- A turn of the loop of mdebug_flash_read: the bytes of one file, at most `room` of them, and
-- whether the loop goes on. A number of bytes of 2 ^ 31 or more, which is negative as an `ssize_t`, is
-- left out: a file is half of the partition at most.
unfoldable pub read_file : FlashApi → Log → ℕ → ℕ → ℕ → List ℕ × Log × Bool
read_file api m i room k =
    let f = file m i in
    let n = min room ((f.size + 2 ^ 32 - f.offset) % 2 ^ 32) in
    let cleared : LogFile = record f { size = 0; offset = 0 } in
    let advanced : LogFile = record f { offset = f.offset + n } in
    if n == 0
    then ([], m, true)
    else if not (api.read_ret k == mdf_ok)
    then ([], set_file m i cleared, false)
    else (read_cells m.cells (f.addr + f.offset) n, set_file m i advanced, true)

-- The older file is read first. `size` is the room of the caller.
unfoldable pub mdebug_flash_read : FlashApi → Log → Bool → ℕ → Err × List ℕ × Log
mdebug_flash_read api m there size =
    let (first, m1, goes_on) = read_file api m ((m.index + 1) % 2) size 0 in
    let (second, m2, last) = read_file api m1 m.index (size - length first) 1 in
    let whole : List ℕ × Log =
      if goes_on && ltb (length first) size then (first ++ second, m2) else (first, m1) in
    let (bytes, m') = whole in
    if not there || size == 0
    then (mdf_err_invalid_arg, [], m)
    else if not m.inited
    then (mdf_fail, [], m)
    else (if length bytes == 0 then mdf_fail else mdf_ok, bytes, m')

unfoldable pub mdebug_flash_deinit : Log → Err × Log
mdebug_flash_deinit m =
    if not m.inited then (mdf_fail, m) else (mdf_ok, record m { inited = false })

-- `program` is what becomes of a byte of the flash when a byte is written to it, `max_size` is
-- CONFIG_MDEBUG_LOG_FILE_MAX_SIZE and `base` CONFIG_MDEBUG_LOG_PARTITION_OFFSET.
module _ (program : ℕ → ℕ → ℕ) (max_size base : ℕ) where
  abbrev pub write_cells : (ℕ → ℕ) → ℕ → List ℕ → ℕ → ℕ
  write_cells cells a bytes i =
      if leb a i && ltb i (a + length bytes)
      then program (cells i) (get_or bytes (i - a) 0)
      else cells i

  -- A write to the current file, at its end.
  abbrev pub append_bytes : Log → List ℕ → Log
  append_bytes m bytes =
      let f = file m m.index in
      let f' : LogFile = record f { size = f.size + length bytes } in
      set_file (record m { cells = write_cells m.cells (f.addr + f.size) bytes }) m.index f'

  abbrev pub rotated : Log → Log
  rotated m =
      let m' = switched m in
      record m' { cells = erase_cells m.cells (file m' m'.index).addr (half max_size) }

  -- The end of mdebug_flash_write: the data themselves.
  unfoldable pub write_data : FlashApi → List ℕ → Log → Err × Log
  write_data api bytes m =
      let m' = append_bytes m bytes in
      if not (api.data_ret == mdf_ok)
      then (api.data_ret, record m { cells = api.failed_cells })
      else (mdf_ok, record m' { stamp_next = last_byte bytes == 10 || m.stamp_next })

  unfoldable pub write_stamped : FlashApi → List ℕ → Log → Err × Log
  write_stamped api bytes m =
      let m' : Log = record m { stamp_next = false } in
      if not m.stamp_next
      then write_data api bytes m
      else if not (api.stamp_ret == mdf_ok)
      then (api.stamp_ret, record m' { cells = api.failed_cells })
      else write_data api bytes (append_bytes m' api.stamp)

  -- The result, whether MDF_EVENT_MDEBUG_FLASH_FULL is sent, and the state.
  unfoldable pub mdebug_flash_write : FlashApi → Log → Option (List ℕ) → Err × Bool × Log
  mdebug_flash_write api m none = (mdf_err_invalid_arg, false, m)
  mdebug_flash_write api m (some bytes) =
      let full = ltb (half max_size) ((file m m.index).size + length bytes) in
      let m1 = if full then rotated m else m in
      let reports =
        ltb (half max_size) (mdebug_flash_size m1)
        && (ltb 30000 ((api.ticks + 2 ^ 32 - m1.event_tick) % 2 ^ 32) || m1.event_tick == 0) in
      let m2 : Log = record m1 { event_tick = if reports then api.ticks else m1.event_tick } in
      let (ret, m3) = write_stamped api bytes m2 in
      if length bytes == 0
      then (mdf_err_invalid_arg, false, m)
      else if not m.inited
      then (mdf_fail, false, m)
      else if full && not (api.erase_ret == mdf_ok)
      then (api.erase_ret, false, record (switched m) { cells = api.failed_cells })
      else (ret, reports, m3)

  unfoldable pub mdebug_flash_erase : FlashApi → Log → Err × Log
  mdebug_flash_erase api m =
      if not m.inited
      then (mdf_fail, m)
      else if api.erase_ret == mdf_ok
      then (mdf_ok, record m { cells = erase_cells m.cells base max_size })
      else (api.erase_ret, record m { cells = api.failed_cells })

  -- mdebug_flash_init. `found` is whether the partition is there, `part_size` its size, and `loaded` what
  -- mdf_info_load gives of the saved entries. The file that goes on is the one with fewer bytes, if it
  -- is not full.
  unfoldable pub mdebug_flash_init :
      FlashApi → Bool → ℕ → Option (LogFile × LogFile) → Log → Err × Log
  mdebug_flash_init api found part_size loaded m =
      let h = half max_size in
      let files : LogFile × LogFile = elim loaded [ none ↦ (m.file0, m.file1) | some fs ↦ fs ] in
      let missing : Bool = elim loaded [ none ↦ true | some fs ↦ false ] in
      let first = ltb files.0.size h in
      let least = if first then files.0.size else h in
      let second = ltb files.1.size h && ltb files.1.size least in
      let ready : Log = record m {
        inited = true;
        index = if second then 1 else if first then 0 else m.index;
        file0 = record (files.0) { addr = base };
        file1 = record (files.1) { addr = base + h };
        cells = if missing then erase_cells m.cells base max_size else m.cells;
      } in
      if m.inited
      then (mdf_ok, m)
      else if not found
      then (mdf_err_not_supported, m)
      else if ltb part_size max_size || not (h % 4096 == 0)
      then (mdf_err_not_supported, m)
      else if missing && not (api.erase_ret == mdf_ok)
      then (api.erase_ret, record m { cells = api.failed_cells })
      else (mdf_ok, ready)
