-- ===== src/Mupgrade/Kmp.antt =====
-- kmp_next and kmp_find of esp-mdf/components/mupgrade/mupgrade_check.c. Arrays are lists, and a read
-- past their end gives 0.
pub mod Fall
pub mod Advance
pub mod Next
pub mod Find
use pio_esp_mdf_example.Prelude.{
  ℕ, zero, suc, ◌+◌, ◌-◌, ◌%◌, List, get_or, set, ◌==◌, if◌then◌else◌,
}
use pio_esp_mdf_example.Mcommon.Err.{Err, mdf_ok, mdf_fail}

-- The inner loop of both functions: `while (j > 0 && target[j] != c) j = next[j - 1];`. Each entry of
-- `next` is at most its index, so `j` turns are enough.
unfoldable pub fall_back : List ℕ → List ℕ → ℕ → ℕ → ℕ → ℕ
fall_back target next c zero j = j
fall_back target next c (suc fuel) j =
    let back = fall_back target next c fuel (get_or next (j - 1) 0) in
    if j == 0 then j else if get_or target j 0 == c then j else back

-- One turn of either outer loop, up to the test for the end: the new length of the match.
abbrev pub advance : List ℕ → List ℕ → ℕ → ℕ → ℕ
advance target next c j =
    let j' = fall_back target next c j j in if get_or target j' 0 == c then j' + 1 else j'

-- The outer loop of `kmp_next`: `left` turns from `i` on. The entries are of type `uint8_t`, and `j` is
-- an `int`.
unfoldable pub next_loop : ℕ → List ℕ → ℕ → ℕ → List ℕ → List ℕ
next_loop zero target i j next = next
next_loop (suc left) target i j next =
    let j' = advance target next (get_or target i 0) j in
    next_loop left target (i + 1) j' (set next i (j' % 256))

unfoldable pub kmp_next : List ℕ → ℕ → List ℕ → List ℕ
kmp_next target size next = next_loop (size - 1) target 1 0 (set next 0 0)

-- The loop of `kmp_find`.
unfoldable pub find_loop : ℕ → List ℕ → List ℕ → ℕ → List ℕ → ℕ → ℕ → Err
find_loop zero src target target_size next i next_index = mdf_fail
find_loop (suc left) src target target_size next i next_index =
    let c = get_or src i 0 in
    let index = fall_back target next c next_index next_index in
    let found = find_loop left src target target_size next (i + 1) (index + 1) in
    let missed = find_loop left src target target_size next (i + 1) index in
    if get_or target index 0 == c
    then if index + 1 == target_size then mdf_ok else found
    else missed

-- `for (i = 0; i <= src_size - target_size; i++)` over `int`: no turn if the difference is negative.
unfoldable pub kmp_find : List ℕ → ℕ → List ℕ → ℕ → List ℕ → Err
kmp_find src src_size target target_size next =
    find_loop (src_size + 1 - target_size) src target target_size next 0 0
