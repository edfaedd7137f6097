-- ===== src/Mupgrade/Progress.antt =====
-- The progress array of esp-mdf/components/mupgrade/include/mupgrade.h: MUPGRADE_GET_BITS and
-- MUPGRADE_SET_BITS on MUPGRADE_PACKET_MAX_NUM / 8 bytes. Past the array get_bit gives false and
-- set_bit changes nothing; mupgrade_write of Node/Write.antt makes such an access a fault.
pub mod Bits
use Prim.Native.Nat.{bit_and, bit_or}
use pio_esp_mdf_example.Prelude.{
  ℕ, ◌/◌, ◌%◌, ◌^◌, Bool, true, not, ◌&&◌, List, [], ◌∷◌, get_or, set, replicate, ◌==◌,
}

abbrev pub packet_max_size : ℕ
packet_max_size = 1024

abbrev pub progress_len : ℕ
progress_len = 512

unfoldable pub get_bit : List ℕ → ℕ → Bool
get_bit bytes n = not (bit_and (get_or bytes (n / 8) 0) (2 ^ (n % 8)) == 0)

unfoldable pub set_bit : List ℕ → ℕ → List ℕ
set_bit bytes n = set bytes (n / 8) (bit_or (get_or bytes (n / 8) 0) (2 ^ (n % 8)))

-- memset of the whole array
abbrev pub filled : ℕ → List ℕ
filled byte = replicate progress_len byte

-- `progress_array[i] &= other[i]` for each byte.
unfoldable pub merge : List ℕ → List ℕ → List ℕ
merge [] other = []
merge (x ∷ xs) [] = bit_and x 0 ∷ merge xs []
merge (x ∷ xs) (y ∷ ys) = bit_and x y ∷ merge xs ys

-- The test `progress_array[i] != 0xFF` for some byte.
unfoldable pub all_written : List ℕ → Bool
all_written [] = true
all_written (x ∷ xs) = x == 0xff && all_written xs
