-- ===== src/Mdebug/Flash/Queue.antt =====
-- The log as a queue of bytes, and what is taken from the front of a file.
use mathlib.Core.Path.{ap₂, subst}
use pio_esp_mdf_example.Prelude.{
  ℕ, zero, suc, ◌+◌, ◌-◌, ◌%◌, ◌^◌, ◌<◌, ◌≤◌, ◌≡◌, ◌≢◌, refl, sym, ap, ◌∙◌, min, Bool, true, List,
  [], ◌∷◌, ◌++◌, length, take, drop, ◌==◌, arith, Bool-cases, inl, inr,
}
use pio_esp_mdf_example.Mcommon.Err.{mdf_ok}
use pio_esp_mdf_example.Mdebug.Flash.{LogFile, Log, file, set_file, read_cells, FlashApi, read_file}
use pio_esp_mdf_example.Mdebug.Flash.Cells.{read_at, take_read, drop_read}

-- The bytes of a file that were not read, and those of the log, the older file first.
abbrev pub unread : Log → LogFile → List ℕ
unread m f = read_cells m.cells (f.addr + f.offset) (f.size - f.offset)

abbrev pub other : Log → ℕ
other m = (m.index + 1) % 2

abbrev pub content : Log → List ℕ
content m = unread m (file m (other m)) ++ unread m (file m m.index)

abbrev pub IsFile : LogFile → Type 0
IsFile f = (f.offset ≤ f.size) × (f.size < 2 ^ 32)

pub file-IsFile : (m : Log) → IsFile m.file0 → IsFile m.file1 → (i : ℕ) → IsFile (file m i)
file-IsFile m sized0 sized1 i = ground (arith, sized0, sized1)

pub file-set_file :
    (m : Log) (i : ℕ) (f : LogFile)
    → (file (set_file m i f) i ≡ f)
      × ((set_file m i f).cells ≡ m.cells)
      × ((set_file m i f).index ≡ m.index)
      × ((j : ℕ) → (j == 0) ≢ (i == 0) → file (set_file m i f) j ≡ file m j)
file-set_file m i f = elim (Bool-cases (i == 0)) [
  | inl first ↦ rw (first) (
    refl,
    refl,
    refl,
    λ j differ. elim (Bool-cases (j == 0)) [ inl e ↦ absurd (differ e) | inr e ↦ rw e refl ],
  )
  | inr second ↦ rw (second) (
    refl,
    refl,
    refl,
    λ j differ. elim (Bool-cases (j == 0)) [ inl e ↦ rw e refl | inr e ↦ absurd (differ e) ],
  )
]

-- What a turn of the loop does to a file and the log.
abbrev pub Takes : Log → ℕ → ℕ → List ℕ × Log × Bool → Type 0
Takes m i room (bytes, m', goes_on) =
    (bytes ≡ take room (unread m (file m i)))
    × (goes_on ≡ true)
    × (unread m' (file m' i) ≡ drop room (unread m (file m i)))
    × (m'.cells ≡ m.cells)
    × (m'.index ≡ m.index)
    × ((j : ℕ) → (j == 0) ≢ (i == 0) → file m' j ≡ file m j)

module _ (api : FlashApi) (m : Log) (i room k : ℕ) (ok : api.read_ret k ≡ mdf_ok)
    (sized : IsFile (file m i)) where
  abbrev taken : ℕ
  taken = min room ((file m i).size - (file m i).offset)

  wraps : min room (((file m i).size + 2 ^ 32 - (file m i).offset) % 2 ^ 32) ≡ taken
  wraps = omega (arith, sized)

  read_nothing : taken ≡ 0 → read_file api m i room k ≡ ([], m, true)
  unfolding read_file
  read_nothing none_left = ground (arith, wraps, none_left)

  abbrev ahead : Log
  ahead = set_file m i (record (file m i) { offset = (file m i).offset + taken })

  read_some :
      taken ≢ 0
      → read_file api m i room k
        ≡ (read_cells m.cells ((file m i).addr + (file m i).offset) taken, ahead, true)
  unfolding read_file
  read_some left = rw (read_file, wraps) (ground (arith, left, ok))

  abbrev start : ℕ
  start = (file m i).addr + (file m i).offset

  abbrev len : ℕ
  len = (file m i).size - (file m i).offset

  nothing-Takes : taken ≡ 0 → Takes m i room ([], m, true)
  nothing-Takes none_left = (
    sym (take_read m.cells start room len ∙ ap (read_cells m.cells start) none_left),
    refl,
    sym (
        drop_read m.cells start room len
        ∙ read_at m.cells (start + taken) start (len - taken) len (omega (arith, none_left))
            (omega (arith, none_left))),
    refl,
    refl,
    λ j differ. refl,
  )

  some-Takes : Takes m i room (read_cells m.cells start taken, ahead, true)
  some-Takes =
      let f' : LogFile = record (file m i) { offset = (file m i).offset + taken } in
      let (set, cells, index, others) = file-set_file m i f' in
      (
        sym (take_read m.cells start room len),
        refl,
        ap₂ (λ (cs : ℕ → ℕ) (f : LogFile). read_cells cs (f.addr + f.offset) (f.size - f.offset))
              cells set
            ∙ read_at m.cells ((file m i).addr + ((file m i).offset + taken)) (start + taken)
                ((file m i).size - ((file m i).offset + taken)) (len - taken) (omega arith)
                (omega (arith, sized))
            ∙ sym (drop_read m.cells start room len),
        cells,
        index,
        others,
      )

  pub read_file-Takes : Takes m i room (read_file api m i room k)
  read_file-Takes = elim (Bool-cases (taken == 0)) [
    | inl e ↦
        let none_left : taken ≡ 0 = ground (arith, e) in
        subst (Takes m i room) (sym (read_nothing none_left)) (nothing-Takes none_left)
    | inr e ↦
        let left : taken ≢ 0 = ground (arith, e) in
        subst (Takes m i room) (sym (read_some left)) some-Takes
  ]

pub take-append :
    (n : ℕ) (xs ys : List ℕ) → take n (xs ++ ys) ≡ take n xs ++ take (n - length (take n xs)) ys
take-append zero xs ys = refl
take-append (suc n) [] ys = let e : suc n ≡ suc n - 0 = omega arith in ap (λ k. take k ys) e
take-append (suc n) (x ∷ xs) ys =
    let e : n - length (take n xs) ≡ suc n - suc (length (take n xs)) = omega arith in
    ap (λ zs. x ∷ zs) (take-append n xs ys ∙ ap (λ k. take n xs ++ take k ys) e)

pub drop-append :
    (n : ℕ) (xs ys : List ℕ) → drop n (xs ++ ys) ≡ drop n xs ++ drop (n - length (take n xs)) ys
drop-append zero xs ys = refl
drop-append (suc n) [] ys = let e : suc n ≡ suc n - 0 = omega arith in ap (λ k. drop k ys) e
drop-append (suc n) (x ∷ xs) ys =
    let e : n - length (take n xs) ≡ suc n - suc (length (take n xs)) = omega arith in
    drop-append n xs ys ∙ ap (λ k. drop n xs ++ drop k ys) e
