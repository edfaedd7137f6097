-- ===== src/Mlink/Trigger/Parse.antt =====
-- The reading of a trigger: mlink_trigger_parse of esp-mdf/components/mlink/mlink_trigger.c.
use pio_esp_mdf_example.Prelude.{
  ℕ, ◌+◌, ◌-◌, ◌%◌, ◌^◌, List, [], ◌∷◌, map, Option, none, some, Bool, true, false, ◌==◌,
  if◌then◌else◌, length,
}
use pio_esp_mdf_example.Mcommon.Err.{Err, mdf_ok, is_negative}
use pio_esp_mdf_example.Mlink.Keys.{
  name_key, trigger_cid_key, execute_mac_key, trigger_compare_key, equal_key, unequal_key,
  greater_than_key, less_than_key, variation_key, rising_key, falling_key, trigger_content_key,
  request_key, execute_cid_key, execute_content_key, communicate_type_key, sync_word, linkage_word,
  group_word,
}
use pio_esp_mdf_example.Mlink.Parse.{
  Cjson, int8_type, int16_type, int32_type, string_type, pointer_type, Slot, text_slot, Written,
  nothing, copy, words, json_parse, text_in, int_in,
}
use pio_esp_mdf_example.Mlink.Handle.{same_name}
use pio_esp_mdf_example.Mlink.Trigger.{Condition, Compare, Trigger, Content, text, set_status}

-- A step of the parser: it goes on with a value, gives the trigger up, or writes outside of its
-- memory, follows a null pointer or goes on with the bytes of an address.
pub data Step (A : Type 0) : Type 0 where
  wild refused : Step A
  got : A → Step A

infixl 5 ◌>>=◌
abbrev pub ◌>>=◌ : {A B : Type 0} → Step A → (A → Step B) → Step B
wild >>= f = wild
refused >>= f = refused
got a >>= f = f a

-- The check of an error: the tests are for `ret < 0`.
abbrev pub unless_negative : Err × Written → Step Written
unless_negative (ret, w) = if is_negative ret then refused else got w

abbrev pub or_wild : {A : Type 0} → Option A → Step A
or_wild none = wild
or_wild (some a) = got a

-- The pointer to a text afterwards, that was null before
abbrev pub pointer_after : Written → Step (Option (List ℕ))
pointer_after nothing = got none
pointer_after (copy t) = got (some t)
pointer_after (words []) = got none
pointer_after (words ((i, text_slot t) ∷ [])) = got (some t)
pointer_after other = wild

-- The texts of the list of addresses, from its word `i` on
unfoldable pub texts_from : ℕ → List (ℕ × Slot) → Step (List (List ℕ))
texts_from i [] = got []
texts_from i ((o, text_slot t) ∷ ws) =
    let rest = texts_from (i + 1) ws in if o == i then (do got (t ∷ (← rest))) else wild
texts_from i ((o, w) ∷ ws) = wild

unfoldable pub addresses : Written → Step (List (List ℕ))
addresses nothing = got []
addresses (words ws) = texts_from 0 ws
addresses other = wild

-- The number of the addresses is read before them, as 16 bits.
abbrev pub as_many : ℕ → List (List ℕ) → Step (List (List ℕ))
as_many num ts = if length ts == num then got ts else wild

-- A condition is there if its key is.
unfoldable pub parse_condition : Cjson → Option (List ℕ) → List ℕ → Condition
parse_condition cjson compare_str key =
    let (ret, w) = json_parse cjson compare_str key int32_type in
    record { flag = ret == mdf_ok; bound = int_in w }

unfoldable pub parse_compare : Cjson → Option (List ℕ) → Compare
parse_compare cjson compare_str = record {
  value = 2 ^ 32 - 1;
  equal = parse_condition cjson compare_str equal_key;
  unequal = parse_condition cjson compare_str unequal_key;
  greater_than = parse_condition cjson compare_str greater_than_key;
  less_than = parse_condition cjson compare_str less_than_key;
  variation = parse_condition cjson compare_str variation_key;
  rising = parse_condition cjson compare_str rising_key;
  falling = parse_condition cjson compare_str falling_key;
}

-- What the request in the content asks for: to hand on the value, or a text. A linkage without a
-- text would follow a null pointer when it fires.
unfoldable pub parse_request : Cjson → List ℕ → Option (List ℕ) → List ℕ → Step (Bool × ℕ × Content)
parse_request cjson raw content_str request =
    if same_name request sync_word
    then (do
      w ← unless_negative (json_parse cjson content_str execute_cid_key int32_type)
      got (true, int_in w, set_status 0 0))
    else if same_name request linkage_word
    then (do
      w ← unless_negative (json_parse cjson (some raw) execute_content_key pointer_type)
      p ← pointer_after w
      t ← or_wild p
      got (false, 0, text t))
    else refused

-- The type of the communication is optional.
unfoldable pub parse_group : Cjson → List ℕ → Step Bool
parse_group cjson raw =
    let (ret, w) = json_parse cjson (some raw) communicate_type_key string_type in
    if ret == mdf_ok then (do got (same_name (← or_wild (text_in 16 w)) group_word)) else got false

-- mlink_trigger_t with its name and the size of its text
pub record Listed : Type 0 where
  pub name : List ℕ
  pub raw_data_size : ℕ
  pub trigger : Trigger

unfoldable pub parse_fields : Cjson → (List ℕ → ℕ) → List ℕ → Step (List ℕ × Trigger)
parse_fields cjson mac_str2hex raw = do
  w₁ ← unless_negative (json_parse cjson (some raw) name_key string_type)
  name ← or_wild (text_in 16 w₁)
  cid ← unless_negative (json_parse cjson (some raw) trigger_cid_key int8_type)
  num ← unless_negative (json_parse cjson (some raw) execute_mac_key int16_type)
  w₂ ← unless_negative (json_parse cjson (some raw) execute_mac_key pointer_type)
  all ← addresses w₂
  texts ← as_many (int_in num) all
  w₃ ← unless_negative (json_parse cjson (some raw) trigger_compare_key pointer_type)
  compare_str ← pointer_after w₃
  w₄ ← unless_negative (json_parse cjson (some raw) trigger_content_key pointer_type)
  content_str ← pointer_after w₄
  w₅ ← unless_negative (json_parse cjson content_str request_key string_type)
  request ← or_wild (text_in 16 w₅)
  asked ← parse_request cjson raw content_str request
  group ← parse_group cjson raw
  got (
    name,
    record {
      cid = int_in cid;
      sync = asked.0;
      param = asked.1;
      group = group;
      compare = parse_compare cjson compare_str;
      addrs = map mac_str2hex texts;
      content = asked.2;
    },
  )

-- mlink_trigger_parse; the memory that it asks for is there, `mac_str2hex` is mlink_mac_str2hex.
unfoldable pub trigger_parse : Cjson → (List ℕ → ℕ) → List ℕ → Step Listed
trigger_parse cjson mac_str2hex raw = do
  fields ← parse_fields cjson mac_str2hex raw
  got (record { name = fields.0; raw_data_size = (length raw + 1) % 2 ^ 16; trigger = fields.1 })
