-- ===== src/Mlink/Json/Bytes.antt =====
-- Texts in memory: what writing at the end of a prefix does to the printer's memory, and to its
-- length.
use pio_esp_mdf_example.Prelude.{
  ℕ, suc, ◌+◌, ◌-◌, ◌≤◌, ◌≡◌, ◌≢◌, refl, ap, ◌∙◌, List, [], ◌∷◌, ◌++◌, take, drop, length,
  length-append, length-take, length-drop, arith,
}
use mathlib.Core.List.{append_assoc}
use pio_esp_mdf_example.Mlink.Json.{write_at, print_at, strlen}

abbrev pub IsNonZero : List ℕ → Type 0
IsNonZero [] = Unit
IsNonZero (c ∷ cs) = (c ≢ 0) × IsNonZero cs

-- The memory holds the text, and the NUL after it.
abbrev pub IsText : List ℕ → List ℕ → Type 0
IsText memory s = (q : List ℕ) × (memory ≡ s ++ (0 ∷ q))

-- The state of the printer: it stands at the end of the prefix that it has written.
abbrev pub IsAt : ℕ × List ℕ → List ℕ → Type 0
IsAt (index, memory) p = (index ≡ length p) × ((q : List ℕ) × (memory ≡ p ++ q))

take_prefix : (p q : List ℕ) → take (length p) (p ++ q) ≡ p
take_prefix [] q = refl
take_prefix (c ∷ p) q = ap (λ r. c ∷ r) (take_prefix p q)

drop_prefix : (p q : List ℕ) (n : ℕ) → drop (length p + n) (p ++ q) ≡ drop n q
drop_prefix [] q n = ap (λ k. drop k q) (let e : 0 + n ≡ n = omega arith in e)
drop_prefix (c ∷ p) q n =
    ap (λ k. drop k (c ∷ (p ++ q)))
      (let e : suc (length p) + n ≡ suc (length p + n) = omega arith in e)
    ∙ drop_prefix p q n

pub write_at_end : (p t q : List ℕ) → write_at (length p) t (p ++ q) ≡ p ++ (t ++ drop (length t) q)
unfolding write_at
write_at_end p t q = rw (take_prefix p q, drop_prefix p q (length t)) refl

pub length-write_at :
    (i : ℕ) (t memory : List ℕ)
    → i + length t ≤ length memory
    → length (write_at i t memory) ≡ length memory
unfolding write_at
length-write_at i t memory h = omega (
  arith,
  length-append (take i memory) (t ++ drop (i + length t) memory),
  length-append t (drop (i + length t) memory),
  length-take i memory,
  length-drop (i + length t) memory,
  h,
)

pub length-print_at :
    (i : ℕ) (t memory : List ℕ)
    → i + length t + 1 ≤ length memory
    → length (print_at i t memory) ≡ length memory
unfolding print_at
length-print_at i t memory h =
    length-write_at i (t ++ (0 ∷ [])) memory (omega (arith, length-append t (0 ∷ []), h))

pub strlen_text : (s q : List ℕ) → IsNonZero s → strlen (s ++ (0 ∷ q)) ≡ length s
unfolding strlen
strlen_text [] q h = refl
strlen_text (c ∷ s) q (c≢0, h) = ground (arith, c≢0, strlen_text s q h)

-- A text that is printed at the end of the prefix makes a longer one.
pub print_at-IsText :
    (index : ℕ) (memory p t : List ℕ)
    → IsAt (index, memory) p
    → IsText (print_at index t memory) (p ++ t)
unfolding print_at
print_at-IsText index memory p t (i, (q, m)) = (
  drop (length (t ++ (0 ∷ []))) q,
  rw (i, m, write_at_end p (t ++ (0 ∷ [])) q) (simp append_assoc refl),
)

pub print_at-IsAt :
    (index : ℕ) (memory p t : List ℕ)
    → IsAt (index, memory) p
    → IsAt (index + length t, print_at index t memory) (p ++ t)
print_at-IsAt index memory p t h =
    let (q, m) = print_at-IsText index memory p t h in
    (omega (arith, length-append p t, h.0), (0 ∷ q, m))

-- The length after any write, also one that goes past the end
pub length-write_at_any :
    (i : ℕ) (t memory : List ℕ)
    → i ≤ length memory
    → length (write_at i t memory) ≡ i + length t + (length memory - (i + length t))
unfolding write_at
length-write_at_any i t memory h = omega (
  arith,
  length-append (take i memory) (t ++ drop (i + length t) memory),
  length-append t (drop (i + length t) memory),
  length-take i memory,
  length-drop (i + length t) memory,
  h,
)
