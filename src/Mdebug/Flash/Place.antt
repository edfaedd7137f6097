-- ===== src/Mdebug/Flash/Place.antt =====
-- The files of the log in their halves of it, and what writing and erasing do to them.
use mathlib.Core.Path.{ap₂}
use pio_esp_mdf_example.Prelude.{
  ℕ, ◌+◌, ◌-◌, ◌<◌, ◌≤◌, ◌≡◌, ◌⊎◌, refl, ◌∙◌, List, ◌++◌, length, arith, inl, inr,
}
use pio_esp_mdf_example.Mdebug.Flash.{
  LogFile, Log, file, read_cells, half, erase_cells, write_cells,
}
use pio_esp_mdf_example.Mdebug.Flash.Cells.{
  read_at, read_cells_same, read_cells-append, write_cells_outside, read_written,
}
use pio_esp_mdf_example.Mdebug.Flash.Queue.{other}

module _ (program : ℕ → ℕ → ℕ) (max_size base : ℕ) (blank : (b : ℕ) → program 0xff b ≡ b) where
  -- A file in its half of the log; behind its end the flash is erased.
  abbrev pub IsPlaced : (ℕ → ℕ) → LogFile → Type 0
  IsPlaced cells f =
      (f.offset ≤ f.size)
      × (f.size ≤ half max_size)
      × ((i : ℕ) → f.addr + f.size ≤ i → i < f.addr + half max_size → cells i ≡ 0xff)

  abbrev pub IsApart : LogFile → LogFile → Type 0
  IsApart f g = (f.addr + half max_size ≤ g.addr) ⊎ (g.addr + half max_size ≤ f.addr)

  -- The two files of the log.
  abbrev pub IsLog : Log → Type 0
  IsLog m =
      (m.index < 2)
      × IsPlaced m.cells (file m m.index)
      × IsPlaced m.cells (file m (other m))
      × IsApart (file m m.index) (file m (other m))

  module _ (cells : ℕ → ℕ) (f : LogFile) (bytes : List ℕ)
      (fits : f.size + length bytes ≤ half max_size) where
    abbrev pub cells' : ℕ → ℕ
    cells' = write_cells program max_size base cells (f.addr + f.size) bytes

    abbrev pub f' : LogFile
    f' = record f { size = f.size + length bytes }

    pub grown-IsPlaced : IsPlaced cells f → IsPlaced cells' f'
    grown-IsPlaced (read, small, erased) = (
      omega (arith, read),
      fits,
      λ i low high.
          write_cells_outside program max_size base blank cells (f.addr + f.size) bytes i
            (inr (omega (arith, low)))
          ∙ erased i (omega (arith, low)) high,
    )

    away :
        (g : LogFile)
        → IsApart f g
        → (i : ℕ) → g.addr ≤ i
        → i < g.addr + half max_size
        → cells' i ≡ cells i
    away g (inl below) i low high =
        write_cells_outside program max_size base blank cells (f.addr + f.size) bytes i
          (inr (omega (arith, low, below, fits)))
    away g (inr above) i low high =
        write_cells_outside program max_size base blank cells (f.addr + f.size) bytes i
          (inl (omega (arith, high, above)))

    pub away-IsPlaced : (g : LogFile) → IsApart f g → IsPlaced cells g → IsPlaced cells' g
    away-IsPlaced g apart (read, small, erased) =
        (read, small, λ i low high. away g apart i (omega (arith, low)) high ∙ erased i low high)

    pub away_read :
        (g : LogFile)
        → IsApart f g
        → IsPlaced cells g
        → read_cells cells' (g.addr + g.offset) (g.size - g.offset)
          ≡ read_cells cells (g.addr + g.offset) (g.size - g.offset)
    away_read g apart (read, small, erased) =
        read_cells_same cells' cells (g.addr + g.offset) (g.size - g.offset)
          (λ i low high. away g apart i (omega (arith, low)) (omega (arith, high, read, small)))

    pub grown_read :
        IsPlaced cells f
        → read_cells cells' (f.addr + f.offset) (f'.size - f.offset)
          ≡ read_cells cells (f.addr + f.offset) (f.size - f.offset) ++ bytes
    grown_read (read, small, erased) =
        let before : List ℕ = read_cells cells (f.addr + f.offset) (f.size - f.offset) in
        read_at cells' (f.addr + f.offset) (f.addr + f.offset) (f'.size - f.offset)
          (f.size - f.offset + length bytes) refl (omega (arith, read))
        ∙ read_cells-append cells' (f.addr + f.offset) (f.size - f.offset) (length bytes)
        ∙ ap₂ (λ (us vs : List ℕ). us ++ vs)
            (read_cells_same cells' cells (f.addr + f.offset) (f.size - f.offset) (λ i low high.
              write_cells_outside program max_size base blank cells (f.addr + f.size) bytes i
                (inl (omega (arith, high, read)))))
            (read_at cells' (f.addr + f.offset + (f.size - f.offset)) (f.addr + f.size)
                (length bytes) (length bytes) (omega (arith, read)) refl
              ∙ read_written program max_size base blank cells (f.addr + f.size) bytes
                  (λ i low high. erased i low (omega (arith, high, fits))))

  erase_outside :
      (cells : ℕ → ℕ) (a n i : ℕ) → (i < a) ⊎ (a + n ≤ i) → erase_cells cells a n i ≡ cells i
  erase_outside cells a n i apart = ground (arith, apart)

  pub erase_inside :
      (cells : ℕ → ℕ) (a n i : ℕ) → a ≤ i → i < a + n → erase_cells cells a n i ≡ 0xff
  erase_inside cells a n i low high = ground (arith, low, high)

  module _ (cells : ℕ → ℕ) (f g : LogFile) (apart : IsApart f g) (placed : IsPlaced cells f) where
    abbrev erased_cells : ℕ → ℕ
    erased_cells = erase_cells cells g.addr (half max_size)

    kept_cell : (i : ℕ) → f.addr ≤ i → i < f.addr + half max_size → erased_cells i ≡ cells i
    kept_cell i low high = erase_outside cells g.addr (half max_size) i (elim apart [
      | inl below ↦ inl (omega (arith, high, below))
      | inr above ↦ inr (omega (arith, low, above))
    ])

    pub kept-IsPlaced : IsPlaced erased_cells f
    kept-IsPlaced =
        let (read, small, erased) = placed in
        (read, small, λ i low high. kept_cell i (omega (arith, low)) high ∙ erased i low high)

    pub kept_read :
        read_cells erased_cells (f.addr + f.offset) (f.size - f.offset)
        ≡ read_cells cells (f.addr + f.offset) (f.size - f.offset)
    kept_read =
        let (read, small, erased) = placed in
        read_cells_same erased_cells cells (f.addr + f.offset) (f.size - f.offset)
          (λ i low high. kept_cell i (omega (arith, low)) (omega (arith, high, read, small)))

  pub swapped : (f g : LogFile) → IsApart f g → IsApart g f
  swapped f g (inl h) = inr h
  swapped f g (inr h) = inl h
