-- ===== src/Mdebug/Flash/Append.antt =====
-- The log as a queue of bytes: a file takes bytes at its end, and the older one is cleared.
use mathlib.Core.Path.{ap₂, subst}
use mathlib.Core.List.{append-nil, append_assoc}
use pio_esp_mdf_example.Prelude.{
  ℕ, ◌+◌, ◌%◌, ◌<◌, ◌≤◌, ◌≡◌, ◌≢◌, refl, sym, ap, ◌∙◌, List, ◌++◌, length, ◌==◌, arith,
}
use pio_esp_mdf_example.Mdebug.Flash.{LogFile, Log, file, half, write_cells, append_bytes, rotated}
use pio_esp_mdf_example.Mdebug.Flash.Queue.{unread, other, file-set_file}
use pio_esp_mdf_example.Mdebug.Flash.Place.{
  IsPlaced, IsApart, IsLog, cells', f', grown-IsPlaced, away-IsPlaced, away_read, grown_read,
  erase_inside, kept-IsPlaced, kept_read, swapped,
}

module _ (program : ℕ → ℕ → ℕ) (max_size base : ℕ) (blank : (b : ℕ) → program 0xff b ≡ b) where
  -- A log of which the files `i` and `j` are the current and the older one.
  abbrev Holds : Log → ℕ → ℕ → List ℕ → ℕ → Type 0
  Holds m i j bytes size =
      IsPlaced program max_size base blank m.cells (file m i)
      × IsPlaced program max_size base blank m.cells (file m j)
      × IsApart program max_size base blank (file m i) (file m j)
      × (unread m (file m j) ++ unread m (file m i) ≡ bytes)
      × ((file m i).size ≡ size)

  differ : (m : Log) → m.index < 2 → (other m == 0) ≢ (m.index == 0)
  differ m two = ground (arith, two)

  append_bytes-Holds :
      (m : Log) (bytes all : List ℕ) (size : ℕ)
      → m.index < 2
      → size + length bytes ≤ half max_size
      → Holds m m.index (other m) all size
      → Holds
          (append_bytes program max_size base m bytes)
          m.index
          (other m)
          (all ++ bytes)
          (size + length bytes)
  append_bytes-Holds m bytes all size two fits (placed, placed', apart, bytes_there, sized) =
      let f = file m m.index in
      let fits' : f.size + length bytes ≤ half max_size = omega (arith, fits, sized) in
      let (set, cells, index, others) =
        file-set_file
          (record m { cells = cells' program max_size base blank m.cells f bytes fits' }) m.index
          (f' program max_size base blank m.cells f bytes fits') in
      let older = others (other m) (differ m two) in
      rw (set, older, cells)
        (
          grown-IsPlaced program max_size base blank m.cells f bytes fits' placed,
          away-IsPlaced program max_size base blank m.cells f bytes fits' (file m (other m)) apart
              placed',
          apart,
          ap₂ (λ (us vs : List ℕ). us ++ vs)
                (away_read program max_size base blank m.cells f bytes fits' (file m (other m))
                  apart placed')
                (grown_read program max_size base blank m.cells f bytes fits' placed)
              ∙ sym (append_assoc (unread m (file m (other m))) (unread m f) bytes)
              ∙ ap (λ (us : List ℕ). us ++ bytes) bytes_there,
          ap (λ n. n + length bytes) sized,
        )

  rotated-Holds :
      (m : Log)
      → IsLog program max_size base blank m
      → Holds (rotated program max_size base m) (other m) m.index (unread m (file m m.index)) 0
  rotated-Holds m (two, placed, placed', apart) =
      let g : LogFile = record (file m (other m)) { size = 0; offset = 0 } in
      let (set, cells, index, others) = file-set_file (record m { index = other m }) (other m) g in
      let current = others m.index (λ e. differ m two (sym e)) in
      rw (index, set, current)
        (
          (
            omega arith,
            omega arith,
            λ i low high.
                erase_inside program max_size base blank m.cells g.addr (half max_size) i
                  (omega (arith, low)) high,
          ),
          kept-IsPlaced program max_size base blank m.cells (file m m.index) g apart placed,
          swapped program max_size base blank (file m m.index) g apart,
          append-nil _
              ∙ kept_read program max_size base blank m.cells (file m m.index) g apart placed,
          refl,
        )

  abbrev pub IsQueue : Log → List ℕ → ℕ → Type 0
  IsQueue m bytes size = (m.index < 2) × Holds m m.index (other m) bytes size

  pub append_bytes-IsQueue :
      (m : Log) (bytes all : List ℕ) (size : ℕ)
      → size + length bytes ≤ half max_size
      → IsQueue m all size
      → IsQueue (append_bytes program max_size base m bytes) (all ++ bytes) (size + length bytes)
  append_bytes-IsQueue m bytes all size fits (two, holds) =
      let m' = append_bytes program max_size base m bytes in
      let f = file m m.index in
      let grown : LogFile = record f { size = f.size + length bytes } in
      let written = write_cells program max_size base m.cells (f.addr + f.size) bytes in
      let index : m'.index ≡ m.index =
        (file-set_file (record m { cells = written }) m.index grown).2 in
      (
        omega (arith, index, two),
        subst (λ (n : ℕ). Holds m' n ((n + 1) % 2) (all ++ bytes) (size + length bytes)) (sym index)
            (append_bytes-Holds m bytes all size two fits holds),
      )

  pub rotated-IsQueue :
      (m : Log)
      → IsLog program max_size base blank m
      → IsQueue (rotated program max_size base m) (unread m (file m m.index)) 0
  rotated-IsQueue m log =
      let m' = rotated program max_size base m in
      let g : LogFile = record (file m (other m)) { size = 0; offset = 0 } in
      let index : m'.index ≡ other m =
        (file-set_file (record m { index = other m }) (other m) g).2 in
      let back : (other m + 1) % 2 ≡ m.index = omega (arith, log.0) in
      (
        omega (arith, index),
        subst (λ (n : ℕ). Holds m' n ((n + 1) % 2) (unread m (file m m.index)) 0) (sym index)
            (subst (λ (n : ℕ). Holds m' (other m) n (unread m (file m m.index)) 0) (sym back)
              (rotated-Holds m log)),
      )
