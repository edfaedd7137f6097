-- ===== src/Mdebug/Flash/Read.antt =====
-- The log as a queue of bytes: mdebug_flash_read takes from its front.
use mathlib.Core.Path.{ap₂, subst}
use mathlib.Core.List.{append-nil}
use pio_esp_mdf_example.Prelude.{
  ℕ, ◌+◌, ◌-◌, ◌%◌, ◌<◌, ◌≤◌, ◌≡◌, ◌≢◌, refl, sym, ap, ◌∙◌, Bool, true, false, ◌&&◌, List, ◌++◌,
  length, ltb, take, drop, ◌==◌, if◌then◌else◌, arith,
}
use pio_esp_mdf_example.Mcommon.Err.{mdf_ok, mdf_fail}
use pio_esp_mdf_example.Mdebug.Flash.{
  LogFile, Log, file, read_cells, FlashApi, read_file, mdebug_flash_read,
}
use pio_esp_mdf_example.Mdebug.Flash.Queue.{
  unread, other, content, IsFile, file-IsFile, Takes, read_file-Takes, take-append, drop-append,
}

module _ (api : FlashApi) (m : Log) (size : ℕ) (ok : (k : ℕ) → api.read_ret k ≡ mdf_ok)
    (two : m.index < 2) (sized_other : IsFile (file m (other m)))
    (sized_last : IsFile (file m m.index)) where
  abbrev older : List ℕ
  older = unread m (file m (other m))

  abbrev newer : List ℕ
  newer = unread m (file m m.index)

  differ : (m.index == 0) ≢ (other m == 0)
  differ = ground (arith, two)

  same_unread :
      (m' : Log) (i : ℕ)
      → m'.cells ≡ m.cells
      → file m' i ≡ file m i
      → unread m' (file m' i) ≡ unread m (file m i)
  same_unread m' i cells same =
      ap₂ (λ (cs : ℕ → ℕ) (f : LogFile). read_cells cs (f.addr + f.offset) (f.size - f.offset))
        cells same

  content_parts :
      (m' : Log) (xs ys : List ℕ)
      → m'.index ≡ m.index
      → unread m' (file m' (other m)) ≡ xs
      → unread m' (file m' m.index) ≡ ys
      → content m' ≡ xs ++ ys
  content_parts m' xs ys index first second =
      ap (λ (n : ℕ). unread m' (file m' ((n + 1) % 2)) ++ unread m' (file m' n)) index
      ∙ ap₂ (λ (us vs : List ℕ). us ++ vs) first second

  abbrev Drained : List ℕ × Log → Type 0
  Drained (bytes, m') = (bytes ≡ take size (content m)) × (content m' ≡ drop size (content m))

  abbrev after_first : List ℕ × Log × Bool
  after_first = read_file api m (other m) size 0

  abbrev after_second : List ℕ × Log × Bool
  after_second = read_file api after_first.1 m.index (size - length after_first.0) 1

  first-Takes : Takes m (other m) size after_first
  first-Takes = read_file-Takes api m (other m) size 0 (ok 0) sized_other

  second-Takes : Takes after_first.1 m.index (size - length after_first.0) after_second
  second-Takes =
      read_file-Takes api after_first.1 m.index (size - length after_first.0) 1 (ok 1)
        (subst IsFile (sym (first-Takes.5 m.index differ)) sized_last)

  one-Drained : size ≤ length after_first.0 → Drained (after_first.0, after_first.1)
  one-Drained full =
      let (bytes, goes_on, left, cells, index, others) = first-Takes in
      let none_left : size - length (take size older) ≡ 0 = omega (arith, ap length bytes, full) in
      (
        bytes
            ∙ sym (append-nil (take size older))
            ∙ ap (λ (k : ℕ). take size older ++ take k newer) (sym none_left)
            ∙ sym (take-append size older newer),
        content_parts after_first.1 (drop size older) newer index left
              (same_unread after_first.1 m.index cells (others m.index differ))
            ∙ ap (λ (k : ℕ). drop size older ++ drop k newer) (sym none_left)
            ∙ sym (drop-append size older newer),
      )

  both-Drained : Drained (after_first.0 ++ after_second.0, after_second.1)
  both-Drained =
      let (bytes, goes_on, left, cells, index, others) = first-Takes in
      let (bytes', goes_on', left', cells', index', others') = second-Takes in
      let before = same_unread after_first.1 m.index cells (others m.index differ) in
      let room : size - length after_first.0 ≡ size - length (take size older) =
        ap (λ (xs : List ℕ). size - length xs) bytes in
      (
        ap₂ (λ (us vs : List ℕ). us ++ vs) bytes
              (bytes' ∙ ap₂ (λ (k : ℕ) (xs : List ℕ). take k xs) room before)
            ∙ sym (take-append size older newer),
        content_parts after_second.1 (drop size older)
              (drop (size - length (take size older)) newer) (index' ∙ index)
              (ap₂
                  (λ (cs : ℕ → ℕ) (f : LogFile).
                    read_cells cs (f.addr + f.offset) (f.size - f.offset))
                  cells' (others' (other m) (λ e. differ (sym e)))
                ∙ left)
              (left' ∙ ap₂ (λ (k : ℕ) (xs : List ℕ). drop k xs) room before)
            ∙ sym (drop-append size older newer),
      )

  abbrev both : List ℕ × Log
  both = (after_first.0 ++ after_second.0, after_second.1)

  abbrev one : List ℕ × Log
  one = (after_first.0, after_first.1)

  abbrev whole : List ℕ × Log
  whole = if after_first.2 && ltb (length after_first.0) size then both else one

  one_of-Drained :
      (b : Bool) → ltb (length after_first.0) size ≡ b → Drained (if b then both else one)
  one_of-Drained true room = both-Drained
  one_of-Drained false full = one-Drained (ground (arith, full))

  whole-Drained : Drained whole
  whole-Drained =
      subst (λ (g : Bool). Drained (if g && ltb (length after_first.0) size then both else one))
        (sym first-Takes.1) (one_of-Drained (ltb (length after_first.0) size) refl)

  read_whole :
      m.inited ≡ true
      → 0 < size
      → mdebug_flash_read api m true size
        ≡ (if length whole.0 == 0 then mdf_fail else mdf_ok, whole.0, whole.1)
  unfolding mdebug_flash_read
  read_whole inited pos =
      let some_room : (size == 0) ≡ false = ground (arith, pos) in
      rw (mdebug_flash_read, some_room, inited) refl

-- If no read of the flash fails, then mdebug_flash_read takes from the front of the log, of which the
-- bytes in the older file come first: it gives the caller as many bytes as there is room for, or all
-- of them, leaves exactly the others to be read, and returns MDF_OK if there were any.
pub read-content :
    (api : FlashApi) (m : Log) (size : ℕ)
    → ((k : ℕ) → api.read_ret k ≡ mdf_ok)
    → m.inited ≡ true
    → m.index < 2
    → IsFile m.file0
    → IsFile m.file1
    → 0 < size
    → ((mdebug_flash_read api m true size).1 ≡ take size (content m))
      × (content (mdebug_flash_read api m true size).2 ≡ drop size (content m))
      × ((mdebug_flash_read api m true size).0
          ≡ (if length (take size (content m)) == 0 then mdf_fail else mdf_ok))
read-content api m size ok inited two sized0 sized1 pos =
    let first = file-IsFile m sized0 sized1 in
    let (bytes, left) = whole-Drained api m size ok two (first (other m)) (first m.index) in
    rw (read_whole api m size ok two (first (other m)) (first m.index) inited pos)
      (bytes, left, ap (λ (xs : List ℕ). if length xs == 0 then mdf_fail else mdf_ok) bytes)
