-- ===== src/Mlink/Parse.antt =====
-- The reading of JSON: __mlink_json_parse of esp-mdf/components/mlink/mlink_json.c. What cJSON makes
-- of a text is an argument; an `int` is its pattern of 32 bits.
pub mod Slots
use pio_esp_mdf_example.Prelude.{
  ℕ, suc, ◌+◌, ◌%◌, ◌^◌, List, [], ◌∷◌, Option, none, some, Bool, true, false, ltb, ◌==◌,
  if◌then◌else◌, length,
}
use pio_esp_mdf_example.Mcommon.Err.{Err, mdf_ok, mdf_fail, mdf_err_invalid_arg}

-- An element of an array as cJSON_GetArrayItem gives it; an object with what
-- cJSON_PrintUnformatted makes of it, if it makes anything.
pub data Element : Type 0 where
  number_element : ℕ → Element
  text_element : List ℕ → Element
  object_element : Option (List ℕ) → Element
  other_element : Element

pub data Content : Type 0 where
  false_item true_item number_item other_item : Content
  text_item : List ℕ → Content
  object_item : Option (List ℕ) → Content
  array_item : List Element → Content

-- The item that a key names: its `type` with what belongs to it, and the patterns of `valueint`, of
-- `valuedouble`, and of that cast to `float`.
pub record Item : Type 0 where
  pub content : Content
  pub valueint : ℕ
  pub valuedouble : ℕ
  pub valuefloat : ℕ

-- cJSON_Parse with cJSON_GetObjectItem: no text of JSON, or the item of a key if there is one
abbrev pub Cjson : Type 0
Cjson = List ℕ → Option (List ℕ → Option Item)

-- The types that the macro mlink_json_parse tells apart; `pointer_type` is a `char **`.
pub data ValueType : Type 0 where
  int8_type int16_type int32_type float_type double_type string_type pointer_type other_type :
      ValueType

-- A word of an array that `value` points to
pub data Slot : Type 0 where
  int_slot : ℕ → Slot
  text_slot : List ℕ → Slot
  null_slot : Slot

-- What is written to where `value` points: so many bits of a number, characters with their NUL, a
-- pointer to a new copy of a text, or words at their offsets.
pub data Written : Type 0 where
  nothing : Written
  bits : ℕ → ℕ → Written
  characters : List ℕ → Written
  copy : List ℕ → Written
  words : List (ℕ × Slot) → Written

abbrev pub cons_word : ℕ × Slot → Err × List (ℕ × Slot) → Err × List (ℕ × Slot)
cons_word w (ret, ws) = (ret, w ∷ ws)

-- The loop over an array: a number goes to the word of its index `i`, a text or an object to the
-- next word of `array_index`.
unfoldable pub parse_elements : ℕ → ℕ → List Element → Err × List (ℕ × Slot)
parse_elements i array_index [] = (mdf_ok, [])
parse_elements i array_index (number_element n ∷ es) =
    cons_word (i, int_slot n) (parse_elements (i + 1) array_index es)
parse_elements i array_index (text_element t ∷ es) =
    cons_word (array_index, text_slot t) (parse_elements (i + 1) (array_index + 1) es)
parse_elements i array_index (object_element none ∷ es) = (mdf_fail, (array_index, null_slot) ∷ [])
parse_elements i array_index (object_element (some t) ∷ es) =
    cons_word (array_index, text_slot t) (parse_elements (i + 1) (array_index + 1) es)
parse_elements i array_index (other_element ∷ es) = parse_elements (i + 1) array_index es

-- A text is copied behind a `char **`, and to the place itself otherwise.
abbrev pub put_text : ValueType → List ℕ → Written
put_text pointer_type t = copy t
put_text other t = characters t

-- The default case
unfoldable pub parse_content : ValueType → ℕ → Content → Err × Written
parse_content type valueint false_item = (mdf_ok, bits 8 0)
parse_content type valueint true_item = (mdf_ok, bits 8 1)
parse_content type valueint number_item =
    if valueint == 0 then (mdf_fail, nothing) else (mdf_ok, bits 8 (valueint % 2 ^ 8))
parse_content type valueint (text_item t) = (mdf_ok, put_text type t)
parse_content type valueint (object_item none) = (mdf_fail, nothing)
parse_content type valueint (object_item (some t)) = (mdf_ok, put_text type t)
parse_content type valueint (array_item es) =
    let (ret, ws) = parse_elements 0 0 es in (ret, words ws)
parse_content type valueint other_item = (mdf_ok, nothing)

-- `valueint` of an array is its size.
abbrev pub int_of : Item → ℕ
int_of item = elim (item.content) [ array_item es ↦ length es | _ ↦ item.valueint ]

unfoldable pub parse_item : ValueType → Item → Err × Written
parse_item int8_type item = (mdf_ok, bits 8 (int_of item % 2 ^ 8))
parse_item int16_type item = (mdf_ok, bits 16 (int_of item % 2 ^ 16))
parse_item int32_type item = (mdf_ok, bits 32 (int_of item))
parse_item float_type item = (mdf_ok, bits 32 item.valuefloat)
parse_item double_type item = (mdf_ok, bits 64 item.valuedouble)
parse_item type item = parse_content type (int_of item) item.content

unfoldable pub parse_found : ValueType → Option Item → Err × Written
parse_found type none = (mdf_fail, nothing)
parse_found type (some item) = parse_item type item

unfoldable pub parse_text : ValueType → List ℕ → Option (List ℕ → Option Item) → Err × Written
parse_text type key none = (mdf_fail, nothing)
parse_text type key (some items) = parse_found type (items key)

-- __mlink_json_parse; the key and `value` are there.
unfoldable pub json_parse : Cjson → Option (List ℕ) → List ℕ → ValueType → Err × Written
json_parse cjson none key type = (mdf_err_invalid_arg, nothing)
json_parse cjson (some json_str) key type = parse_text type key (cjson json_str)

-- The text in an array of `size` zeroed characters afterwards; `none` where more than the array is
-- written, or where it holds the bytes of an address.
unfoldable pub text_in : ℕ → Written → Option (List ℕ)
text_in size nothing = some []
text_in size (bits w n) = some (if n == 0 then [] else n ∷ [])
text_in size (characters t) = if ltb (length t) size then some t else none
text_in size (copy t) = none
text_in size (words []) = some []
text_in size (words (w ∷ ws)) = none

-- The number in a zeroed variable afterwards
abbrev pub int_in : Written → ℕ
int_in (bits w n) = n
int_in other = 0
