-- ===== src/Mdebug/Flash/Cells.antt =====
-- Bytes of a flash partition, read after they were written or erased.
use pio_esp_mdf_example.Prelude.{
  ℕ, zero, suc, ◌+◌, ◌-◌, ◌<◌, ◌≤◌, ◌≡◌, refl, ap, ◌∙◌, min, true, ◌&&◌, List, [], ◌∷◌, ◌++◌,
  length, ltb, leb, take, drop, arith, ◌⊎◌,
}
use pio_esp_mdf_example.Mdebug.Flash.{read_cells, write_cells}
use mathlib.Core.Path.{ap₂}

-- The bytes depend on the cells that are read only.
pub read_cells_same :
    (c d : ℕ → ℕ) (a n : ℕ)
    → ((i : ℕ) → a ≤ i → i < a + n → c i ≡ d i)
    → read_cells c a n ≡ read_cells d a n
read_cells_same c d a zero same = refl
read_cells_same c d a (suc n) same =
    ap₂ (λ (x : ℕ) (xs : List ℕ). x ∷ xs) (same a (omega arith) (omega arith))
      (read_cells_same c d (a + 1) n
        (λ i low high. same i (omega (arith, low)) (omega (arith, high))))

pub read_at : (c : ℕ → ℕ) (a b m n : ℕ) → a ≡ b → m ≡ n → read_cells c a m ≡ read_cells c b n
read_at c a b m n here long = ap₂ (read_cells c) here long

pub read_cells-append :
    (c : ℕ → ℕ) (a m n : ℕ) → read_cells c a (m + n) ≡ read_cells c a m ++ read_cells c (a + m) n
read_cells-append c a zero n = read_at c a (a + 0) (0 + n) n (omega arith) (omega arith)
read_cells-append c a (suc m) n =
    read_at c a a (suc m + n) (suc (m + n)) refl (omega arith)
    ∙ ap (λ (xs : List ℕ). c a ∷ xs)
        (read_cells-append c (a + 1) m n
          ∙ ap (λ (xs : List ℕ). read_cells c (a + 1) m ++ xs)
              (read_at c (a + 1 + m) (a + suc m) n n (omega arith) refl))

pub take_read : (c : ℕ → ℕ) (a k n : ℕ) → take k (read_cells c a n) ≡ read_cells c a (min k n)
take_read c a zero n = read_at c a a 0 (min 0 n) refl (omega arith)
take_read c a (suc k) zero = read_at c a a 0 (min (suc k) 0) refl (omega arith)
take_read c a (suc k) (suc n) =
    ap (λ (xs : List ℕ). c a ∷ xs) (take_read c (a + 1) k n)
    ∙ read_at c a a (suc (min k n)) (min (suc k) (suc n)) refl (omega arith)

pub drop_read :
    (c : ℕ → ℕ) (a k n : ℕ) → drop k (read_cells c a n) ≡ read_cells c (a + min k n) (n - min k n)
drop_read c a zero n = read_at c a (a + min 0 n) n (n - min 0 n) (omega arith) (omega arith)
drop_read c a (suc k) zero =
    read_at c a (a + min (suc k) 0) 0 (0 - min (suc k) 0) (omega arith) (omega arith)
drop_read c a (suc k) (suc n) =
    drop_read c (a + 1) k n
    ∙ read_at c (a + 1 + min k n) (a + min (suc k) (suc n)) (n - min k n)
        (suc n - min (suc k) (suc n)) (omega arith) (omega arith)

pub length-read_cells : (c : ℕ → ℕ) (a n : ℕ) → length (read_cells c a n) ≡ n
length-read_cells c a zero = refl
length-read_cells c a (suc n) = ap suc (length-read_cells c (a + 1) n)

-- A byte that is written to erased flash is there afterwards.
module _ (program : ℕ → ℕ → ℕ) (max_size base : ℕ) (blank : (b : ℕ) → program 0xff b ≡ b) where
  pub write_cells_outside :
      (c : ℕ → ℕ) (a : ℕ) (bytes : List ℕ) (i : ℕ)
      → (i < a) ⊎ (a + length bytes ≤ i)
      → write_cells program max_size base c a bytes i ≡ c i
  write_cells_outside c a bytes i apart = ground (arith, apart)

  write_cells_first :
      (c : ℕ → ℕ) (a x : ℕ) (bytes : List ℕ)
      → c a ≡ 0xff
      → write_cells program max_size base c a (x ∷ bytes) a ≡ x
  write_cells_first c a x bytes erased =
      let inside : (leb a a && ltb a (a + suc (length bytes))) ≡ true = ground arith in
      let here : a - a ≡ 0 = omega arith in rw (inside, here, erased) (blank x)

  write_cells_later :
      (c : ℕ → ℕ) (a x : ℕ) (bytes : List ℕ) (i : ℕ)
      → a + 1 ≤ i
      → write_cells program max_size base c a (x ∷ bytes) i
        ≡ write_cells program max_size base c (a + 1) bytes i
  write_cells_later c a x bytes i later =
      let same : (leb a i && ltb i (a + suc (length bytes)))
          ≡ (leb (a + 1) i && ltb i (a + 1 + length bytes)) =
        ground (arith, later) in
      let next : i - a ≡ suc (i - (a + 1)) = omega (arith, later) in rw (same, next) refl

  pub read_written :
      (c : ℕ → ℕ) (a : ℕ) (bytes : List ℕ)
      → ((i : ℕ) → a ≤ i → i < a + length bytes → c i ≡ 0xff)
      → read_cells (write_cells program max_size base c a bytes) a (length bytes) ≡ bytes
  read_written c a [] erased = refl
  read_written c a (x ∷ bytes) erased =
      ap₂ (λ (y : ℕ) (ys : List ℕ). y ∷ ys)
        (write_cells_first c a x bytes (erased a (omega arith) (omega arith)))
        (read_cells_same _ _ (a + 1) (length bytes)
            (λ i low high. write_cells_later c a x bytes i low)
          ∙ read_written c (a + 1) bytes
              (λ i low high. erased i (omega (arith, low)) (omega (arith, high))))
