-- ===== src/Mlink/Trigger/Listing.antt =====
-- The list of the triggers and its copy in the stored information: mlink_trigger_add,
-- mlink_trigger_store_update, mlink_trigger_init and the handlers of requests of
-- esp-mdf/components/mlink/mlink_trigger.c.
pub mod Init
pub mod Entries
pub mod Stored
pub mod Adding
pub mod Kept
pub mod Restart
pub mod Report
pub mod Wiped
mod Tests
use pio_esp_mdf_example.Prelude.{
  ℕ, zero, suc, ◌+◌, ◌*◌, ◌/◌, ◌%◌, ◌^◌, List, [], ◌∷◌, ◌++◌, Option, none, some, Bool, true, false,
  not, ◌&&◌, ltb, ◌==◌, if◌then◌else◌, length, drop,
}
use pio_esp_mdf_example.Mcommon.Err.{
  Err, mdf_ok, mdf_fail, mdf_err_invalid_arg, mdf_err_not_init, is_negative,
}
use pio_esp_mdf_example.Mcommon.InfoStore.Laws.{Store}
use pio_esp_mdf_example.Mlink.Keys.{name_key, events_key, trigger_store_key}
use pio_esp_mdf_example.Mlink.Parse.{
  Cjson, int32_type, string_type, other_type, characters, Written, nothing, bits, words, Slot,
  text_slot, json_parse, text_in, int_in,
}
use pio_esp_mdf_example.Mlink.Handle.{same_name}
use pio_esp_mdf_example.Mlink.Trigger.Parse.{Step, wild, refused, got, Listed, trigger_parse}

abbrev pub max_num : ℕ
max_num = 32

-- strncpy into an array of `n` characters
unfoldable pub padded : ℕ → List ℕ → List ℕ
padded zero cs = []
padded (suc n) [] = 0 ∷ padded n []
padded (suc n) (c ∷ cs) = c ∷ padded n cs

-- mlink_trigger_store_t: the size, low byte first, and the name
unfoldable pub entry_bytes : Listed → List ℕ
entry_bytes t = (t.raw_data_size % 256) ∷ (t.raw_data_size / 256 % 256) ∷ padded 16 t.name

unfoldable pub table_bytes : List Listed → List ℕ
table_bytes [] = []
table_bytes (t ∷ ts) = entry_bytes t ++ table_bytes ts

-- What an operation on the list ends in: a write outside of the memory or the like, or a result
-- with the list and the stored information
pub data Done (S : Type 0) : Type 0 where
  overrun : Done S
  done : Err → List Listed → S → Done S

-- The copy of the list, which is erased for an empty list
unfoldable pub write_copy : {S : Type 0} → Store S → List Listed → S → Err × S
write_copy store [] s = store.erase trigger_store_key s
write_copy store (t ∷ ts) s = store.save trigger_store_key (table_bytes (t ∷ ts)) s

-- mlink_trigger_store_update; the copy has room for 32 entries.
unfoldable pub store_update : {S : Type 0} → Store S → List Listed → S → Done S
store_update store list s =
    let (ret, s') = write_copy store list s in
    if ltb max_num (length list)
    then overrun
    else done (if is_negative ret then mdf_fail else mdf_ok) list s'

abbrev pub behind : {S : Type 0} → Listed → List Listed × S → List Listed × S
behind t (ts, s) = (t ∷ ts, s)

-- The loop of mlink_trigger_add over the triggers with the same name: one whose stored text cannot be
-- erased stays.
unfoldable pub remove_same : {S : Type 0} → Store S → List ℕ → List Listed → S → List Listed × S
remove_same store name [] s = ([], s)
remove_same store name (t ∷ ts) s =
    let (ret, s') = store.erase t.name s in
    let other = remove_same store name ts s in
    let kept = remove_same store name ts s' in
    if not (same_name t.name name)
    then behind t other
    else if not (ret == mdf_ok)
    then behind t kept
    else (ts, s')

unfoldable pub save_added : {S : Type 0} → Store S → List ℕ → Listed → List Listed × S → Done S
save_added store raw item (ts, s) =
    let (ret, s') = store.save item.name (raw ++ (0 ∷ [])) s in
    if is_negative ret then done ret (item ∷ ts) s' else store_update store (item ∷ ts) s'

unfoldable pub add_parsed : {S : Type 0} → Store S → List ℕ → List Listed → S → Step Listed → Done S
add_parsed store raw list s wild = overrun
add_parsed store raw list s refused = done mdf_fail list s
add_parsed store raw list s (got item) =
    save_added store raw item (remove_same store item.name list s)

-- mlink_trigger_add; the list before mlink_trigger_init is `none`.
unfoldable pub trigger_add :
    {S : Type 0}
    → Store S
    → Cjson
    → (List ℕ → ℕ)
    → Option (List ℕ)
    → Option (List Listed)
    → S
    → Done S
trigger_add store cjson mac_str2hex none list s =
    done mdf_err_invalid_arg (elim list [ none ↦ [] | some l ↦ l ]) s
trigger_add store cjson mac_str2hex (some raw) none s = done mdf_err_not_init [] s
trigger_add store cjson mac_str2hex (some raw) (some list) s =
    add_parsed store raw list s (trigger_parse cjson mac_str2hex raw)

-- The pointers that a request leaves in an array of 32 null pointers
unfoldable pub events_in : ℕ → List (ℕ × Slot) → Option (List (List ℕ))
events_in i [] = some []
events_in i ((o, text_slot t) ∷ ws) =
    let rest = events_in (i + 1) ws in
    if (o == i) then elim rest [ none ↦ none | some ts ↦ some (t ∷ ts) ] else none
events_in i ((o, w) ∷ ws) = none

-- The first pointers, with null ones up to the number
unfoldable pub with_nulls : ℕ → List (List ℕ) → List (Option (List ℕ))
with_nulls zero ts = []
with_nulls (suc n) [] = none ∷ with_nulls n []
with_nulls (suc n) (t ∷ ts) = some t ∷ with_nulls n ts

unfoldable pub events : ℕ → Written → Option (List (Option (List ℕ)))
events num (words ws) =
    if ltb max_num (length ws)
    then none
    else elim (events_in 0 ws) [ none ↦ none | some ts ↦ some (with_nulls num ts) ]
events num (characters t) = if (num == 0) && ltb (length t) (4 * max_num) then some [] else none
events num nothing = some (with_nulls num [])
events num other = none

-- The loop of mlink_handle_set_trigger
unfoldable pub add_all :
    {S : Type 0}
    → Store S
    → Cjson
    → (List ℕ → ℕ)
    → List (Option (List ℕ))
    → List Listed
    → S
    → Done S
add_all store cjson mac_str2hex [] list s = done mdf_ok list s
add_all store cjson mac_str2hex (raw ∷ raws) list s =
    elim (trigger_add store cjson mac_str2hex raw (some list) s) [
      | overrun ↦ overrun
      | done ret list' s' ↦
          let rest = add_all store cjson mac_str2hex raws list' s' in
          if ret == mdf_ok then rest else done ret list' s'
    ]

-- mlink_handle_set_trigger, but for its event
unfoldable pub set_trigger :
    {S : Type 0} → Store S → Cjson → (List ℕ → ℕ) → List ℕ → List Listed → S → Done S
set_trigger store cjson mac_str2hex req list s =
    let (ret, num) = json_parse cjson (some req) events_key int32_type in
    let (ret', w) = json_parse cjson (some req) events_key other_type in
    if not (ret == mdf_ok)
    then done ret list s
    else if not (ret' == mdf_ok)
    then done ret' list s
    else elim (events (int_in num) w) [
      | none ↦ overrun
      | some raws ↦ add_all store cjson mac_str2hex raws list s
    ]

-- The loop of mlink_handle_remove_trigger over the list: an error of erasing ends it.
unfoldable pub remove_named :
    {S : Type 0} → Store S → List ℕ → List Listed → S → Err × List Listed × S
remove_named store name [] s = (mdf_ok, [], s)
remove_named store name (t ∷ ts) s =
    let (ret, s') = store.erase t.name s in
    let (e, ts', s'') = remove_named store name ts s in
    if not (same_name t.name name)
    then (e, t ∷ ts', s'')
    else if is_negative ret
    then (mdf_fail, t ∷ ts, s')
    else (mdf_ok, ts, s')

-- The name that a request leaves in `trigger_name`, which keeps what the request before left there
unfoldable pub name_over : List ℕ → Written → Option (List ℕ)
name_over name nothing = some name
name_over name (bits w n) = some (if n == 0 then [] else n ∷ drop 1 name)
name_over name w = text_in 16 w

unfoldable pub remove_all :
    {S : Type 0} → Store S → Cjson → List (Option (List ℕ)) → List ℕ → List Listed → S → Done S
remove_all store cjson [] name list s = store_update store list s
remove_all store cjson (raw ∷ raws) name list s =
    let (ret, w) = json_parse cjson raw name_key string_type in
    let unread = remove_all store cjson raws name list s in
    elim (name_over name w) [
      | none ↦ overrun
      | some name' ↦
          let (e, list', s') = remove_named store name' list s in
          let rest = remove_all store cjson raws name' list' s' in
          if is_negative ret then unread else if e == mdf_ok then rest else done e list' s'
    ]

-- mlink_handle_remove_trigger
unfoldable pub remove_trigger : {S : Type 0} → Store S → Cjson → List ℕ → List Listed → S → Done S
remove_trigger store cjson req list s =
    let (ret, num) = json_parse cjson (some req) events_key int32_type in
    let (ret', w) = json_parse cjson (some req) events_key other_type in
    if is_negative ret
    then done ret list s
    else if is_negative ret'
    then done ret' list s
    else elim (events (int_in num) w) [
      | none ↦ overrun
      | some raws ↦ remove_all store cjson raws [] list s
    ]
