-- ===== src/Mlink/Trigger/Listing/Tests.antt =====
-- The theorems on the list of the triggers at concrete inputs.
use pio_esp_mdf_example.Prelude.{
  ℕ, ◌≡◌, refl, List, [], ◌∷◌, ◌++◌, none, some, true, false, arith, if◌then◌else◌, Bool-cases, inl,
  inr,
}
use pio_esp_mdf_example.Mcommon.Err.{mdf_ok}
use pio_esp_mdf_example.Mcommon.InfoStore.{same_text, save_opened, erase_opened, space_name}
use pio_esp_mdf_example.Mcommon.InfoStore.Laws.{IsStore, info_store, info_store-IsStore}
use pio_esp_mdf_example.Mcommon.InfoStore.Tests.{Values, nvs, nvs-IsNvs}
use pio_esp_mdf_example.Mlink.Keys.{
  name_key, trigger_cid_key, execute_mac_key, trigger_compare_key, trigger_content_key, request_key,
  execute_cid_key, sync_word, trigger_store_key, trigger_key,
}
use pio_esp_mdf_example.Mlink.Json.{brace, string}
use pio_esp_mdf_example.Mlink.Json.Tests.{api, api-IsHeap}
use pio_esp_mdf_example.Mlink.Json.Render.{render}
use pio_esp_mdf_example.Mlink.Parse.{
  Cjson, Item, Content, text_item, number_item, array_item, json_parse, parse_text, parse_found,
  parse_item, parse_content, parse_elements, text_in,
}
use pio_esp_mdf_example.Mlink.Handle.{same_name}
use pio_esp_mdf_example.Mlink.Trigger.{Condition, set_status}
use pio_esp_mdf_example.Mlink.Trigger.Parse.{
  got, Listed, trigger_parse, parse_fields, addresses, texts_from, parse_condition, parse_compare,
  parse_request, parse_group,
}
use pio_esp_mdf_example.Mlink.Trigger.Listing.{trigger_add, done, table_bytes}
use pio_esp_mdf_example.Mlink.Trigger.Listing.Init.{trigger_init}
use pio_esp_mdf_example.Mlink.Trigger.Listing.Stored.{AllKept, IsStored, IsReliable}
use pio_esp_mdf_example.Mlink.Trigger.Listing.Kept.{Succeeds, trigger_add-IsStored}
use pio_esp_mdf_example.Mlink.Trigger.Listing.Restart.{trigger_init_restores}
use pio_esp_mdf_example.Mlink.Trigger.Listing.Report.{
  array_text, Reports, get_trigger, get_trigger_shows,
}

abbrev item_of : Content → ℕ → Item
item_of content n = record { content = content; valueint = n; valuedouble = 0; valuefloat = 0 }

-- "a"
abbrev name : List ℕ
name = 0x61 ∷ []

-- Every text of JSON is a trigger that hands on the value of 3 as 4, to nobody.
abbrev cjson : Cjson
cjson raw = some (λ key.
    if same_text key name_key
    then some (item_of (text_item name) 0)
    else if same_text key trigger_cid_key
    then some (item_of number_item 3)
    else if same_text key execute_mac_key
    then some (item_of (array_item []) 0)
    else if same_text key trigger_compare_key
    then some (item_of (text_item []) 0)
    else if same_text key trigger_content_key
    then some (item_of (text_item []) 0)
    else if same_text key request_key
    then some (item_of (text_item sync_word) 0)
    else if same_text key execute_cid_key
    then some (item_of number_item 4)
    else none)

abbrev mac : List ℕ → ℕ
mac text = 0

abbrev unset : Condition
unset = record { flag = false; bound = 0 }

abbrev item : Listed
item = record {
  name = name;
  raw_data_size = 2;
  trigger = record {
    cid = 3;
    sync = true;
    param = 4;
    group = false;
    compare = record {
      value = 0xffff_ffff;
      equal = unset;
      unequal = unset;
      greater_than = unset;
      less_than = unset;
      variation = unset;
      rising = unset;
      falling = unset;
    };
    addrs = [];
    content = set_status 0 0;
  };
}

-- "{"
abbrev raw : List ℕ
raw = brace ∷ []

parsed : trigger_parse cjson mac raw ≡ got item
unfolding trigger_parse parse_fields addresses texts_from parse_compare parse_condition
    parse_request parse_group json_parse parse_text parse_found parse_item parse_content
    parse_elements text_in same_name same_text
parsed = refl

abbrev empty : Values
empty k = none

abbrev laws : IsStore (info_store nvs) (λ s. s)
laws = info_store-IsStore nvs (λ s. s) nvs-IsNvs

store-IsReliable : IsReliable (info_store nvs) (λ s. s)
unfolding save_opened erase_opened
store-IsReliable = (
  λ k v s a b c d. refl,
  λ k v s held. elim (Bool-cases (same_text k space_name)) [
    | inl e ↦ rw e refl
    | inr e ↦ rw e refl
  ],
)

trigger_add-IsStored_example :
    Succeeds
      (trigger_add (info_store nvs) cjson mac (some raw) (some []) empty)
      (λ list' s'. IsStored (λ s. s) cjson mac s' list')
unfolding save_opened erase_opened same_text
trigger_add-IsStored_example =
    trigger_add-IsStored (info_store nvs) (λ s. s) laws store-IsReliable cjson mac raw item [] empty
      (refl, tt, tt, tt, omega arith) (omega arith) (omega arith) (omega arith) parsed (omega arith)
      (omega arith) (omega arith) refl refl

-- The state with the trigger and its copy
abbrev kept : Values
kept k =
    if same_text name k
    then some (raw ++ (0 ∷ []))
    else if same_text trigger_store_key k
    then some (table_bytes (item ∷ []))
    else none

kept-AllKept : AllKept (λ s. s) cjson mac kept (item ∷ [])
unfolding same_text
kept-AllKept = ((raw, refl, omega arith, parsed, refl), tt)

kept-IsStored : IsStored (λ s. s) cjson mac kept (item ∷ [])
unfolding same_text
kept-IsStored = (
  refl,
  kept-AllKept,
  ((omega arith, omega arith, omega arith, omega arith), tt),
  (tt, refl, refl, tt),
  omega arith,
)

trigger_init_restores_example :
    trigger_init (info_store nvs) cjson mac none kept ≡ done mdf_ok (item ∷ []) kept
trigger_init_restores_example =
    trigger_init_restores (info_store nvs) (λ s. s) laws cjson mac (item ∷ []) kept kept-IsStored

get_trigger_shows_example :
    Reports
      (get_trigger api (info_store nvs) (item ∷ []) kept none)
      (render api brace (trigger_key, string (some (array_text api raw []))) [])
unfolding kept-AllKept
get_trigger_shows_example =
    get_trigger_shows (info_store nvs) (λ s. s) laws cjson mac api kept (item ∷ []) api-IsHeap
      (λ n. omega arith) (λ n. refl) kept-AllKept
