-- ===== src/Mlink/Trigger/Listing/Entries.antt =====
-- The copy of the list, read back.
use pio_esp_mdf_example.Prelude.{
  ℕ, zero, suc, ◌+◌, ◌*◌, ◌/◌, ◌%◌, ◌^◌, ◌≤◌, ◌<◌, ◌≡◌, ◌≢◌, refl, ap, ◌∙◌, false, List, [], ◌∷◌,
  ◌++◌, ◌==◌, length, length-append, take, drop, arith,
}
use pio_esp_mdf_example.Mlink.Json.Bytes.{IsNonZero}
use pio_esp_mdf_example.Mlink.Trigger.Parse.{Listed}
use pio_esp_mdf_example.Mlink.Trigger.Listing.{padded, entry_bytes, table_bytes}
use pio_esp_mdf_example.Mlink.Trigger.Listing.Init.{c_string, entry_size, entries}

pub length-padded : (n : ℕ) (cs : List ℕ) → length (padded n cs) ≡ n
unfolding padded
length-padded zero cs = refl
length-padded (suc n) [] = ap suc (length-padded n [])
length-padded (suc n) (c ∷ cs) = ap suc (length-padded n cs)

pub c_string-padded :
    (n : ℕ) (cs : List ℕ) → IsNonZero cs → length cs < n → c_string (padded n cs) ≡ cs
unfolding padded c_string
c_string-padded zero cs h l = absurd (omega (arith, l))
c_string-padded (suc n) [] h l = refl
c_string-padded (suc n) (c ∷ cs) (h, hs) l =
    ground (arith, h, c_string-padded n cs hs (omega (arith, l)))

pub c_string-text : (s q : List ℕ) → IsNonZero s → c_string (s ++ (0 ∷ q)) ≡ s
unfolding c_string
c_string-text [] q h = refl
c_string-text (c ∷ s) q (h, hs) = ground (arith, h, c_string-text s q hs)

pub take_all-append : (n : ℕ) (p q : List ℕ) → length p ≡ n → take n (p ++ q) ≡ p
take_all-append zero [] q h = refl
take_all-append zero (x ∷ p) q h = absurd (omega (arith, h))
take_all-append (suc n) [] q h = absurd (omega (arith, h))
take_all-append (suc n) (x ∷ p) q h = ap (λ r. x ∷ r) (take_all-append n p q (omega (arith, h)))

drop_all-append : (n : ℕ) (p q : List ℕ) → length p ≡ n → drop n (p ++ q) ≡ q
drop_all-append zero [] q h = refl
drop_all-append zero (x ∷ p) q h = absurd (omega (arith, h))
drop_all-append (suc n) [] q h = absurd (omega (arith, h))
drop_all-append (suc n) (x ∷ p) q h = drop_all-append n p q (omega (arith, h))

-- An entry can be read back: a size that is not 0 in 16 bits, and a name that leaves room for a NUL.
abbrev pub IsEntry : Listed → Type 0
IsEntry t =
    (t.raw_data_size ≢ 0) × (t.raw_data_size < 2 ^ 16) × IsNonZero t.name × (length t.name < 16)

abbrev pub AllEntries : List Listed → Type 0
AllEntries [] = Unit
AllEntries (t ∷ ts) = IsEntry t × AllEntries ts

abbrev pub keys_of : List Listed → List (ℕ × List ℕ)
keys_of [] = []
keys_of (t ∷ ts) = (t.raw_data_size, t.name) ∷ keys_of ts

two_bytes : (n : ℕ) → n < 2 ^ 16 → n % 256 + 256 * (n / 256 % 256) ≡ n
two_bytes n h = omega (arith, h)

-- One entry, with the rest of the table behind it
entry_parts :
    (t : Listed) (rest : List ℕ)
    → IsEntry t
    → (entry_size (entry_bytes t ++ rest) ≡ t.raw_data_size)
      × (drop 18 (entry_bytes t ++ rest) ≡ rest)
      × (c_string (take 16 (drop 2 (entry_bytes t ++ rest))) ≡ t.name)
unfolding entry_bytes
entry_parts t rest (pos, small, clean, short) = (
  two_bytes t.raw_data_size small,
  drop_all-append 16 (padded 16 t.name) rest (length-padded 16 t.name),
  ap c_string (take_all-append 16 (padded 16 t.name) rest (length-padded 16 t.name))
      ∙ c_string-padded 16 t.name clean short,
)

zero_test : (n : ℕ) → n ≢ 0 → (n == 0) ≡ false
zero_test n h = ground (arith, h)

-- What mlink_trigger_store_update writes is what mlink_trigger_init reads, for a list of at most as
-- many triggers as it reads entries.
pub entries-table_bytes :
    (k : ℕ) (ts : List Listed)
    → length ts ≤ k
    → AllEntries ts
    → entries k (table_bytes ts) ≡ keys_of ts
unfolding table_bytes entries
entries-table_bytes zero [] h a = refl
entries-table_bytes (suc k) [] h a = refl
entries-table_bytes zero (t ∷ ts) h a = absurd (omega (arith, h))
entries-table_bytes (suc k) (t ∷ ts) h (e, a) =
    let (size, rest, name) = entry_parts t (table_bytes ts) e in
    rw (size, rest, name, zero_test t.raw_data_size e.0)
      (rw (entries-table_bytes k ts (omega (arith, h)) a) refl)

pub length-table_bytes : (ts : List Listed) → length (table_bytes ts) ≡ length ts * 18
unfolding table_bytes entry_bytes
length-table_bytes [] = omega arith
length-table_bytes (t ∷ ts) = omega (
  arith,
  length-append (entry_bytes t) (table_bytes ts),
  length-padded 16 t.name,
  length-table_bytes ts,
)
