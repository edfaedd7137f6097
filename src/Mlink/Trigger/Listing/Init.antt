-- ===== src/Mlink/Trigger/Listing/Init.antt =====
-- The list after a restart: mlink_trigger_init of esp-mdf/components/mlink/mlink_trigger.c.
use pio_esp_mdf_example.Prelude.{
  ℕ, zero, suc, ◌+◌, ◌*◌, List, [], ◌∷◌, Option, none, some, not, ◌==◌, if◌then◌else◌, take, drop,
  get_or,
}
use pio_esp_mdf_example.Mcommon.Err.{Err, mdf_ok}
use pio_esp_mdf_example.Mcommon.InfoStore.Laws.{Store}
use pio_esp_mdf_example.Mlink.Keys.{trigger_store_key}
use pio_esp_mdf_example.Mlink.Parse.{Cjson}
use pio_esp_mdf_example.Mlink.Trigger.Parse.{Step, wild, refused, got, Listed, trigger_parse}
use pio_esp_mdf_example.Mlink.Trigger.Listing.{max_num, Done, overrun, done}

-- The text of an array of characters, up to its NUL
unfoldable pub c_string : List ℕ → List ℕ
c_string [] = []
c_string (c ∷ cs) = let rest = c_string cs in if c == 0 then [] else c ∷ rest

abbrev pub entry_size : List ℕ → ℕ
entry_size b = get_or b 0 0 + 256 * get_or b 1 0

-- The sizes and names in the copy of the list, which ends at a size of 0; behind the bytes that were
-- loaded there are zeros.
unfoldable pub entries : ℕ → List ℕ → List (ℕ × List ℕ)
entries zero b = []
entries (suc k) b =
    let rest = entries k (drop 18 b) in
    if entry_size b == 0 then [] else (entry_size b, c_string (take 16 (drop 2 b))) ∷ rest

-- A trigger that was parsed stands before those of the entries before.
abbrev pub prepend : List Listed → Step Listed → Step (List Listed)
prepend list wild = wild
prepend list refused = got list
prepend list (got item) = got (item ∷ list)

abbrev pub parse_loaded :
    Cjson → (List ℕ → ℕ) → List Listed → Err × Option (List ℕ) → Step (List Listed)
parse_loaded cjson mac_str2hex list (ret, none) =
    if not (ret == mdf_ok) then got list else prepend list (trigger_parse cjson mac_str2hex [])
parse_loaded cjson mac_str2hex list (ret, some value) =
    if not (ret == mdf_ok)
    then got list
    else prepend list (trigger_parse cjson mac_str2hex (c_string value))

-- The loop over the entries, where one whose text cannot be loaded or parsed is left out
unfoldable pub load_all :
    {S : Type 0}
    → Store S
    → Cjson
    → (List ℕ → ℕ)
    → List (ℕ × List ℕ)
    → S
    → Step (List Listed)
    → Done S
load_all store cjson mac_str2hex es s wild = overrun
load_all store cjson mac_str2hex es s refused = overrun
load_all store cjson mac_str2hex [] s (got list) = done mdf_ok list s
load_all store cjson mac_str2hex ((size, name) ∷ es) s (got list) =
    load_all store cjson mac_str2hex es s
      (parse_loaded cjson mac_str2hex list (store.load name size s))

unfoldable pub load_copy :
    {S : Type 0} → Store S → Cjson → (List ℕ → ℕ) → S → Err × Option (List ℕ) → Done S
load_copy store cjson mac_str2hex s (ret, none) = done mdf_ok [] s
load_copy store cjson mac_str2hex s (ret, some b) =
    let all = load_all store cjson mac_str2hex (entries max_num b) s (got []) in
    if ret == mdf_ok then all else done mdf_ok [] s

-- mlink_trigger_init, but for the three handlers that it sets
unfoldable pub trigger_init :
    {S : Type 0} → Store S → Cjson → (List ℕ → ℕ) → Option (List Listed) → S → Done S
trigger_init store cjson mac_str2hex (some list) s = done mdf_ok list s
trigger_init store cjson mac_str2hex none s =
    load_copy store cjson mac_str2hex s (store.load trigger_store_key (max_num * 18) s)
