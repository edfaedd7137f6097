-- ===== src/Mdebug/Flash/Write.antt =====
-- The log as a queue of bytes: mdebug_flash_write adds to its end.
use mathlib.Core.Path.{subst}
use mathlib.Core.List.{append-nil}
use pio_esp_mdf_example.Prelude.{
  ℕ, ◌+◌, ◌-◌, ◌%◌, ◌^◌, ◌<◌, ◌≤◌, ◌≡◌, refl, sym, ap, ◌∙◌, Bool, true, false, not, ◌&&◌, ◌||◌,
  List, [], ◌++◌, some, length, ltb, ◌==◌, if◌then◌else◌, arith, Bool-cases, inl, inr,
}
use pio_esp_mdf_example.Mcommon.Err.{Err, mdf_ok}
use pio_esp_mdf_example.Mdebug.Flash.{
  LogFile, Log, file, set_file, FlashApi, half, append_bytes, rotated, write_data, write_stamped,
  mdebug_flash_write, mdebug_flash_size,
}
use pio_esp_mdf_example.Mdebug.Flash.Queue.{unread, content}
use pio_esp_mdf_example.Mdebug.Flash.Place.{IsLog}
use pio_esp_mdf_example.Mdebug.Flash.Append.{IsQueue, append_bytes-IsQueue, rotated-IsQueue}

module _ (program : ℕ → ℕ → ℕ) (max_size base : ℕ) (blank : (b : ℕ) → program 0xff b ≡ b) where
  module _ (api : FlashApi) (stamped : api.stamp_ret ≡ mdf_ok)
      (stored : api.data_ret ≡ mdf_ok) where
    write_data-IsQueue :
        (m : Log) (all bytes : List ℕ) (size : ℕ)
        → size + length bytes ≤ half max_size
        → IsQueue program max_size base blank m all size
        → ((write_data program max_size base api bytes m).0 ≡ mdf_ok)
          × IsQueue program max_size base blank
              (write_data program max_size base api bytes m).1
              (all ++ bytes)
              (size + length bytes)
    unfolding write_data
    write_data-IsQueue m all bytes size fits queue =
        let good : (api.data_ret == mdf_ok) ≡ true = ground (arith, stored) in
        rw (write_data, good)
          (refl, append_bytes-IsQueue program max_size base blank m bytes all size fits queue)

    -- The time stamp comes first if the last line is complete.
    abbrev pub stamp_of : Log → List ℕ
    stamp_of m = if m.stamp_next then api.stamp else []

    abbrev Adds : List ℕ → List ℕ → ℕ → List ℕ → Err × Log → Type 0
    Adds all bytes size stamp (ret, m') =
        (ret ≡ mdf_ok)
        × IsQueue program max_size base blank m' (all ++ stamp ++ bytes)
            (size + length stamp + length bytes)

    write_plain :
        (m : Log) (bytes : List ℕ)
        → m.stamp_next ≡ false
        → write_stamped program max_size base api bytes m
          ≡ write_data program max_size base api bytes m
    unfolding write_stamped
    write_plain m bytes none_due = rw (write_stamped, none_due) refl

    abbrev stamp_written : Log → Log
    stamp_written m = append_bytes program max_size base (record m { stamp_next = false }) api.stamp

    write_both :
        (m : Log) (bytes : List ℕ)
        → m.stamp_next ≡ true
        → write_stamped program max_size base api bytes m
          ≡ write_data program max_size base api bytes (stamp_written m)
    unfolding write_stamped
    write_both m bytes due =
        let good : (api.stamp_ret == mdf_ok) ≡ true = ground (arith, stamped) in
        rw (write_stamped, due, good) refl

    write_stamped-Adds :
        (m : Log) (all bytes : List ℕ) (size : ℕ)
        → size + length (stamp_of m) + length bytes ≤ half max_size
        → IsQueue program max_size base blank m all size
        → Adds all bytes size (stamp_of m) (write_stamped program max_size base api bytes m)
    write_stamped-Adds m all bytes size fits queue = elim (Bool-cases m.stamp_next) [
      | inl due ↦
          let stamp : stamp_of m ≡ api.stamp = ap (λ (b : Bool). if b then api.stamp else []) due in
          let fits' =
            subst (λ (s : List ℕ). size + length s + length bytes ≤ half max_size) stamp fits in
          let queue' =
            append_bytes-IsQueue program max_size base blank (record m { stamp_next = false })
              api.stamp all size (omega (arith, fits')) queue in
          subst
            (λ (s : List ℕ).
              Adds all bytes size s (write_stamped program max_size base api bytes m))
            (sym stamp)
            (subst (Adds all bytes size api.stamp) (sym (write_both m bytes due)) (
              write_data-IsQueue (stamp_written m) (all ++ api.stamp) bytes
                (size + length api.stamp) fits' queue'))
      | inr none_due ↦
          let stamp : stamp_of m ≡ [] = ap (λ (b : Bool). if b then api.stamp else []) none_due in
          let fits' =
            subst (λ (s : List ℕ). size + length s + length bytes ≤ half max_size) stamp fits in
          let none_added : size ≡ size + 0 = omega arith in
          let (ok, added) = write_data-IsQueue m all bytes size (omega (arith, fits')) queue in
          subst
            (λ (s : List ℕ).
              Adds all bytes size s (write_stamped program max_size base api bytes m))
            (sym stamp)
            (subst (Adds all bytes size []) (sym (write_plain m bytes none_due)) (
              ok,
              subst
                  (λ (n : ℕ).
                    IsQueue program max_size base blank
                      (write_data program max_size base api bytes m).1 (all ++ [] ++ bytes)
                      (n + length bytes))
                  none_added
                  (subst
                    (λ (us : List ℕ).
                      IsQueue program max_size base blank
                        (write_data program max_size base api bytes m).1 (us ++ bytes)
                        (size + length bytes))
                    (sym (append-nil all)) added),
            ))
    ]

    -- What is left of the log when a message comes: all of it, or the newer file if that is too full.
    abbrev is_full : Log → List ℕ → Bool
    is_full m bytes = ltb (half max_size) ((file m m.index).size + length bytes)

    abbrev pub kept : Log → List ℕ → List ℕ
    kept m bytes = if is_full m bytes then unread m (file m m.index) else content m

    abbrev pub kept_size : Log → List ℕ → ℕ
    kept_size m bytes = if is_full m bytes then 0 else (file m m.index).size

    abbrev ready : Log → List ℕ → Log
    ready m bytes = if is_full m bytes then rotated program max_size base m else m

    one_of-IsQueue :
        (m : Log)
        → IsLog program max_size base blank m
        → (b : Bool)
        → IsQueue program max_size base blank
            (if b then rotated program max_size base m else m)
            (if b then unread m (file m m.index) else content m)
            (if b then 0 else (file m m.index).size)
    one_of-IsQueue m log true = rotated-IsQueue program max_size base blank m log
    one_of-IsQueue m (two, placed, placed', apart) false =
        (two, (placed, placed', apart, refl, refl))

    set_file_stamp : (m : Log) (i : ℕ) (f : LogFile) → (set_file m i f).stamp_next ≡ m.stamp_next
    set_file_stamp m i f = ground arith

    one_of_stamp :
        (m : Log) (b : Bool)
        → (if b then rotated program max_size base m else m).stamp_next ≡ m.stamp_next
    one_of_stamp m true = set_file_stamp _ _ _
    one_of_stamp m false = refl

    abbrev reports : Log → List ℕ → Bool
    reports m bytes =
        ltb (half max_size) (mdebug_flash_size (ready m bytes))
        && (ltb 30000 ((api.ticks + 2 ^ 32 - (ready m bytes).event_tick) % 2 ^ 32)
            || (ready m bytes).event_tick == 0)

    write_run :
        (m : Log) (bytes : List ℕ)
        → m.inited ≡ true
        → api.erase_ret ≡ mdf_ok
        → 0 < length bytes
        → (t : ℕ) × (r : Bool) × (mdebug_flash_write program max_size base api m (some bytes) ≡ (
          (write_stamped program max_size base api bytes
              (record (ready m bytes) { event_tick = t })).0,
          r,
          (write_stamped program max_size base api bytes
              (record (ready m bytes) { event_tick = t })).1,
        ))
    unfolding mdebug_flash_write
    write_run m bytes inited erases pos =
        let some_bytes : (length bytes == 0) ≡ false = ground (arith, pos) in
        let erased : (is_full m bytes && not (api.erase_ret == mdf_ok)) ≡ false =
          ground (arith, erases) in
        (
          if reports m bytes then api.ticks else (ready m bytes).event_tick,
          reports m bytes,
          rw (mdebug_flash_write, some_bytes, inited, erased) refl,
        )

    -- If the flash does what it is asked, and the message with its time stamp fits behind what the file
    -- that it goes to already holds (the current file, or the other one, then empty, if the message
    -- without its stamp has no room in the current file), then mdebug_flash_write returns MDF_OK and adds
    -- to the end of the log exactly the message, with the time stamp in front of it if the message before
    -- ended its line. The log that it adds to is all that was there, or, if it changes the file, what is
    -- unread in the file that was current. The two files stay apart, each in its half, with erased flash
    -- behind its end. A message that just has room in the current file without its stamp, but not with
    -- it, is left out.
    pub write-content :
        (m : Log) (bytes : List ℕ)
        → IsLog program max_size base blank m
        → m.inited ≡ true
        → api.erase_ret ≡ mdf_ok
        → 0 < length bytes
        → kept_size m bytes + length (stamp_of m) + length bytes ≤ half max_size
        → ((mdebug_flash_write program max_size base api m (some bytes)).0 ≡ mdf_ok)
          × IsLog program max_size base blank
              (mdebug_flash_write program max_size base api m (some bytes)).2
          × (content (mdebug_flash_write program max_size base api m (some bytes)).2
              ≡ kept m bytes ++ stamp_of m ++ bytes)
    write-content m bytes log inited erases pos fits =
        let (t, r, run) = write_run m bytes inited erases pos in
        let m2 : Log = record (ready m bytes) { event_tick = t } in
        let stamp : stamp_of m2 ≡ stamp_of m =
          ap (λ (b : Bool). if b then api.stamp else []) (one_of_stamp m (is_full m bytes)) in
        let fits' =
          subst (λ (s : List ℕ). kept_size m bytes + length s + length bytes ≤ half max_size)
            (sym stamp) fits in
        let (ok, queue) =
          write_stamped-Adds m2 (kept m bytes) bytes (kept_size m bytes) fits'
            (one_of-IsQueue m log (is_full m bytes)) in
        let (two, holds) = queue in
        rw run (
          ok,
          (two, holds.0, holds.1, holds.2),
          holds.3 ∙ ap (λ (s : List ℕ). kept m bytes ++ s ++ bytes) stamp,
        )
