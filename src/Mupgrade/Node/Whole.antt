-- ===== src/Mupgrade/Node/Whole.antt =====
-- The device boots the new firmware only when all of it is in its flash.
use pio_esp_mdf_example.Prelude.{
  ℕ, zero, suc, ◌+◌, ◌-◌, ◌*◌, ◌<◌, ◌≤◌, ◌≡◌, ◌≢◌, refl, sym, ◌∙◌, Bool, true, false, ◌||◌, List,
  [], ◌∷◌, ◌++◌, ltb, if◌then◌else◌, arith, length, Bool-cases, inl, inr, ◌⊎◌, lt→ltb, replicate,
}
use pio_esp_mdf_example.Mupgrade.Err.{err_stop}
use pio_esp_mdf_example.Mupgrade.Progress.{get_bit, set_bit, progress_len}
use pio_esp_mdf_example.Mupgrade.Progress.Bits.{
  IsBytes, set_bit-IsBytes, length-set_bit, get_bit-set_bit, get_bit-replicate, replicate-IsBytes,
}
use pio_esp_mdf_example.Mupgrade.Send.{packet_num, packet_size}
use pio_esp_mdf_example.Mupgrade.Node.{
  Status, Effect, set_boot, flash_write, started, finish, set_boot_running, ota_begin, ota_end,
  info_erase, report, info_save, send,
}
use pio_esp_mdf_example.Mupgrade.Node.Write.{Packet, noted, progress_report}

-- The packets that the root sends: parts of the firmware, as long as they have to be.
abbrev pub IsPart : ℕ → Packet → Type 0
IsPart total p = (p.seq < packet_num total) × (p.size ≡ packet_size total p.seq)

module _ (size : ℕ → ℕ) where
  -- The sizes of the packets before `n`, and of those whose bits are set.
  abbrev pub whole_size : ℕ → ℕ
  whole_size zero = 0
  whole_size (suc n) = size n + whole_size n

  abbrev pub filled_size : List ℕ → ℕ → ℕ
  filled_size bytes zero = 0
  filled_size bytes (suc n) =
      if get_bit bytes n then size n + filled_size bytes n else filled_size bytes n

  pub filled_size-set_bit :
      (bytes : List ℕ) (seq n : ℕ)
      → IsBytes bytes
      → seq < 8 * length bytes
      → get_bit bytes seq ≡ false
      → filled_size (set_bit bytes seq) n
        ≡ (if ltb seq n then size seq + filled_size bytes n else filled_size bytes n)
  filled_size-set_bit bytes seq zero b inside unset = ground arith
  filled_size-set_bit bytes seq (suc n) b inside unset =
      let ih = filled_size-set_bit bytes seq n b inside unset in
      let bit = get_bit-set_bit bytes seq n b inside in ground (arith, ih, bit)

  pub filled_size_below : (bytes : List ℕ) (n : ℕ) → filled_size bytes n ≤ whole_size n
  filled_size_below bytes zero = omega arith
  filled_size_below bytes (suc n) = ground (arith, filled_size_below bytes n)

  pub filled_size-replicate : (len n : ℕ) → filled_size (replicate len 0) n ≡ 0
  filled_size-replicate len zero = refl
  filled_size-replicate len (suc n) =
      ground (arith, get_bit-replicate len n, filled_size-replicate len n)

  pub filled_size_all :
      (bytes : List ℕ) (m n : ℕ)
      → m < n
      → filled_size bytes n + (if get_bit bytes m then 0 else size m) ≤ whole_size n
  filled_size_all bytes m zero h = absurd (omega arith)
  filled_size_all bytes m (suc n) h =
      ground (arith, filled_size_below bytes n, filled_size_all bytes m n)

module _ (total : ℕ) (pos : 0 < total) (small : total ≤ 4096 * 1024) where
  whole_size_before : (n : ℕ) → n < packet_num total → whole_size (packet_size total) n ≡ n * 1024
  whole_size_before zero h = refl
  whole_size_before (suc n) h =
      let ih = whole_size_before n (omega arith) in
      let size : packet_size total n ≡ 1024 = ground arith in omega (arith, ih, size)

  whole_size_last :
      (n : ℕ) → packet_num total ≡ suc n → whole_size (packet_size total) (suc n) ≡ total
  whole_size_last n h =
      let before = whole_size_before n (omega (arith, h)) in
      let last : packet_size total n ≡ total - n * 1024 = ground arith in
      omega (arith, before, last, h)

  pub whole_size_total : whole_size (packet_size total) (packet_num total) ≡ total
  whole_size_total =
      let last = whole_size_last (packet_num total - 1) in
      let some_packet : packet_num total ≡ suc (packet_num total - 1) = omega arith in
      rw some_packet (last some_packet)

length-replicate : (n : ℕ) → length (replicate n (zero)) ≡ n
length-replicate zero = refl
length-replicate (suc n) = omega (arith, length-replicate n)

-- What holds of the status on the way, unless the upgrade has been stopped: the written size is that
-- of the packets whose bits are set.
abbrev pub IsConsistent : ℕ → Status → Type 0
IsConsistent total s =
    (s.total_size ≡ total)
    × (length s.progress_array ≡ progress_len)
    × IsBytes s.progress_array
    × ((s.error_code ≡ err_stop)
        ⊎ (s.written_size ≡ filled_size (packet_size total) s.progress_array (packet_num total)))

abbrev pub boots : List Effect → Bool
boots [] = false
boots (set_boot ∷ fx) = true
boots (_ ∷ fx) = boots fx

pub boots-append : (xs ys : List Effect) → boots (xs ++ ys) ≡ (boots xs || boots ys)
boots-append [] ys = refl
boots-append (set_boot ∷ xs) ys = refl
boots-append (started ∷ xs) ys = boots-append xs ys
boots-append (finish ∷ xs) ys = boots-append xs ys
boots-append (set_boot_running ∷ xs) ys = boots-append xs ys
boots-append (ota_begin ∷ xs) ys = boots-append xs ys
boots-append (ota_end ∷ xs) ys = boots-append xs ys
boots-append (info_erase ∷ xs) ys = boots-append xs ys
boots-append (report n ∷ xs) ys = boots-append xs ys
boots-append (flash_write a b ∷ xs) ys = boots-append xs ys
boots-append (info_save a ∷ xs) ys = boots-append xs ys
boots-append (send a b ∷ xs) ys = boots-append xs ys

pub boots-progress_report : (s : Status) (n : ℕ) → boots (progress_report s n).1 ≡ false
unfolding progress_report
boots-progress_report s n = ground arith

module _ (total : ℕ) (pos : 0 < total) (small : total ≤ 4096 * 1024) where
  pub noted-IsConsistent :
      (s : Status) (p : Packet)
      → IsPart total p
      → IsConsistent total s
      → s.error_code ≢ err_stop
      → get_bit s.progress_array p.seq ≡ false
      → IsConsistent total (noted s p)
  noted-IsConsistent s p part consistent running unset =
      let bytes = s.progress_array in
      let (same_total, len, small_bytes, written) = consistent in
      let inside : p.seq < 8 * length bytes = ground (arith, part.0, len) in
      let size = packet_size total in
      let grown =
        filled_size-set_bit size bytes p.seq (packet_num total) small_bytes inside unset in
      let count : s.written_size ≡ filled_size size bytes (packet_num total) = ground arith in
      let here : ltb p.seq (packet_num total) ≡ true = lt→ltb _ _ part.0 in
      let grown' : filled_size size (set_bit bytes p.seq) (packet_num total)
          ≡ size p.seq + filled_size size bytes (packet_num total) =
        ground (arith, grown, here) in
      let bound = filled_size_below size (set_bit bytes p.seq) (packet_num total) in
      let whole = whole_size_total total pos small in
      (
        same_total,
        length-set_bit bytes p.seq ∙ len,
        set_bit-IsBytes bytes p.seq small_bytes inside,
        inr (omega (arith, count, grown', bound, whole, part.1)),
      )

  -- The written size is that of the firmware only if each bit is set.
  pub noted-AllSet :
      (s : Status) (seq : ℕ)
      → IsConsistent total s
      → s.error_code ≢ err_stop
      → s.written_size ≡ s.total_size
      → seq < packet_num total
      → get_bit s.progress_array seq ≡ true
  noted-AllSet s seq (same_total, len, small_bytes, written) running full h =
      let size = packet_size total in
      let all = filled_size_all size s.progress_array seq (packet_num total) h in
      let whole = whole_size_total total pos small in
      let positive : 0 < size seq = ground arith in
      let count : s.written_size ≡ filled_size size s.progress_array (packet_num total) =
        ground arith in
      elim (Bool-cases (get_bit s.progress_array seq)) [
        | inl e ↦ e
        | inr e ↦
            let missing : size seq ≤ (if get_bit s.progress_array seq then 0 else size seq) =
              rw e (omega arith) in
            absurd (omega (arith, all, whole, positive, count, missing, full, same_total))
      ]

-- At the start of an upgrade.
pub fresh-IsConsistent :
    (total len : ℕ) (s : Status)
    → len ≡ progress_len
    → s.total_size ≡ total
    → s.written_size ≡ 0
    → s.progress_array ≡ replicate len 0
    → IsConsistent total s × ((seq : ℕ) → get_bit s.progress_array seq ≡ false)
fresh-IsConsistent total len s l tot empty no_bits =
    let none_set = filled_size-replicate (packet_size total) len (packet_num total) in
    rw no_bits (
      (tot, length-replicate len ∙ l, replicate-IsBytes len, inr (empty ∙ sym none_set)),
      get_bit-replicate len,
    )
