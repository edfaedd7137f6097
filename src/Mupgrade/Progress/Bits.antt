-- ===== src/Mupgrade/Progress/Bits.antt =====
-- The bits of the progress array.
use Prim.Native.Nat.{bit_and, bit_or}
use pio_esp_mdf_example.Prelude.{
  ℕ, zero, suc, ◌*◌, ◌/◌, ◌%◌, ◌^◌, ◌<◌, ◌≤◌, ◌≡◌, ◌≢◌, refl, sym, Bool, true, false, not, ◌&&◌,
  ◌||◌, List, ltb, ◌==◌, if◌then◌else◌, arith, length, get_or, set, replicate, length-set,
  get_or-set_self, get_or-set_ne, Bool-cases, inl, inr, ltb→lt,
}
use pio_esp_mdf_example.Mupgrade.Progress.{get_bit, set_bit}

-- To test a statement on all numbers below a bound.
abbrev all_below : ℕ → (ℕ → Bool) → Bool
all_below zero f = true
all_below (suc n) f = f n && all_below n f

all_below_lem : (n : ℕ) (f : ℕ → Bool) → all_below n f ≡ true → (k : ℕ) → k < n → f k ≡ true
all_below_lem zero f h k l = absurd (omega arith)
all_below_lem (suc n) f h k l =
    let rest = all_below_lem n f in
    elim (Bool-cases (f n)) [
      | inl e ↦ elim (Bool-cases (k == n)) [
        | inl same ↦ ground arith
        | inr other ↦ rest (ground arith) k (ground arith)
      ]
      | inr e ↦ ground arith
    ]

abbrev same : Bool → Bool → Bool
same true b = b
same false b = not b

abbrev bit : ℕ → ℕ → Bool
bit x k = not (bit_and x (2 ^ k) == 0)

abbrev bit_test : ℕ → ℕ → ℕ → Bool
bit_test x k m = ltb (bit_or x (2 ^ k)) 256 && same (bit (bit_or x (2 ^ k)) m) ((k == m) || bit x m)

bit_test_run : all_below 256 (λ x. all_below 8 (λ k. all_below 8 (λ m. bit_test x k m))) ≡ true
bit_test_run = refl

bit_test_lem : (x k m : ℕ) → x < 256 → k < 8 → m < 8 → bit_test x k m ≡ true
bit_test_lem x k m hx hk hm =
    all_below_lem 8 (λ m'. bit_test x k m')
      (all_below_lem 8 (λ k'. all_below 8 (λ m'. bit_test x k' m'))
        (all_below_lem 256 (λ x'. all_below 8 (λ k'. all_below 8 (λ m'. bit_test x' k' m')))
          bit_test_run x hx)
        k hk)
      m hm

same→≡ : (a b : Bool) → same a b ≡ true → a ≡ b
same→≡ true b h = sym h
same→≡ false b h = ground arith

both : (a b : Bool) → (a && b) ≡ true → (a ≡ true) × (b ≡ true)
both a b h = (ground arith, ground arith)

bit-or :
    (x k m : ℕ)
    → x < 256
    → k < 8
    → m < 8
    → (bit_or x (2 ^ k) < 256) × (bit (bit_or x (2 ^ k)) m ≡ ((k == m) || bit x m))
bit-or x k m hx hk hm =
    let t = both (ltb (bit_or x (2 ^ k)) 256) _ (bit_test_lem x k m hx hk hm) in
    (ltb→lt _ _ t.0, same→≡ _ _ t.1)

no_bit_run : all_below 8 (λ k. not (bit 0 k)) ≡ true
no_bit_run = refl

no_bit : (k : ℕ) → k < 8 → bit 0 k ≡ false
no_bit k h = let e = all_below_lem 8 (λ k'. not (bit 0 k')) no_bit_run k h in ground arith

-- Each entry of the array is a byte.
abbrev pub IsBytes : List ℕ → Type 0
IsBytes bytes = (i : ℕ) → get_or bytes i 0 < 256

get_or-replicate : (n i x : ℕ) → get_or (replicate n x) i 0 ≤ x
get_or-replicate zero i x = omega arith
get_or-replicate (suc n) zero x = omega arith
get_or-replicate (suc n) (suc i) x = get_or-replicate n i x

pub replicate-IsBytes : (n : ℕ) → IsBytes (replicate n 0)
replicate-IsBytes n i = omega (arith, get_or-replicate n i 0)

pub get_bit-replicate : (n m : ℕ) → get_bit (replicate n 0) m ≡ false
unfolding get_bit
get_bit-replicate n m =
    let x : ℕ = get_or (replicate n 0) (m / 8) 0 in
    let zeroed : x ≡ 0 = omega (arith, get_or-replicate n (m / 8) 0) in
    rw zeroed (no_bit (m % 8) (omega arith))

-- The bytes after a bit was set, byte by byte.
get_or-set_bit :
    (bytes : List ℕ) (n i : ℕ)
    → n < 8 * length bytes
    → get_or (set_bit bytes n) i 0
      ≡ (if n / 8 == i then bit_or (get_or bytes i 0) (2 ^ (n % 8)) else get_or bytes i 0)
unfolding set_bit
get_or-set_bit bytes n i inside =
    let v = bit_or (get_or bytes (n / 8) 0) (2 ^ (n % 8)) in
    elim (Bool-cases (n / 8 == i))
      as (λ _.
        get_or (set bytes (n / 8) v) i 0
        ≡ (if n / 8 == i then bit_or (get_or bytes i 0) (2 ^ (n % 8)) else get_or bytes i 0)) [
          | inl e ↦
              let here : n / 8 ≡ i = ground arith in
              ground (arith, get_or-set_self bytes (n / 8) v 0 (omega arith))
          | inr e ↦ let there : n / 8 ≢ i = ground arith in rw e (get_or-set_ne bytes v 0 there)
        ]

pub set_bit-IsBytes :
    (bytes : List ℕ) (n : ℕ) → IsBytes bytes → n < 8 * length bytes → IsBytes (set_bit bytes n)
set_bit-IsBytes bytes n h inside i =
    let small = h i in
    let or = bit-or (get_or bytes i 0) (n % 8) 0 small (omega arith) (omega arith) in
    ground (arith, get_or-set_bit bytes n i inside, or.0, small)

pub length-set_bit : (bytes : List ℕ) (n : ℕ) → length (set_bit bytes n) ≡ length bytes
unfolding set_bit
length-set_bit bytes n = length-set bytes (n / 8) (bit_or (get_or bytes (n / 8) 0) (2 ^ (n % 8)))

same_number : (n m : ℕ) → (n == m) ≡ ((n / 8 == m / 8) && (n % 8 == m % 8))
same_number n m = ground arith

-- Setting a bit of the array sets this bit and leaves the others.
pub get_bit-set_bit :
    (bytes : List ℕ) (n m : ℕ)
    → IsBytes bytes
    → n < 8 * length bytes
    → get_bit (set_bit bytes n) m ≡ ((n == m) || get_bit bytes m)
unfolding get_bit
get_bit-set_bit bytes n m h inside =
    let byte = get_or bytes (m / 8) 0 in
    let or = bit-or byte (n % 8) (m % 8) (h (m / 8)) (omega arith) (omega arith) in
    ground (arith, get_or-set_bit bytes n (m / 8) inside, or.1, same_number n m)
