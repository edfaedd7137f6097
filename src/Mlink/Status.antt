-- ===== src/Mlink/Status.antt =====
-- The request for the values of a device: mlink_handle_get_status of
-- esp-mdf/components/mlink/mlink_handle.c.
pub mod Shows
pub mod Asked
mod Tests
use pio_esp_mdf_example.Prelude.{
  ℕ, zero, suc, Bool, true, false, not, ◌+◌, ◌*◌, ◌%◌, ◌^◌, List, [], ◌∷◌, ◌++◌, Option, none, some,
  ltb, ◌==◌, if◌then◌else◌, take, replicate, length, set,
}
use pio_esp_mdf_example.Mcommon.Err.{Err, mdf_ok, mdf_fail, is_negative}
use pio_esp_mdf_example.Mlink.Keys.{cids_key, cid_key, value_key, characteristics_key, array_key}
use pio_esp_mdf_example.Mlink.Json.{
  JsonApi, Value, integer, string, Target, missing, pointer, array, Outcome, fault, returned,
  json_pack, json_pack_double,
}
use pio_esp_mdf_example.Mlink.Parse.{
  Cjson, int32_type, other_type, Written, nothing, bits, characters, words, Slot, int_slot,
  json_parse, int_in,
}
use pio_esp_mdf_example.Mlink.Trigger.Listing.Init.{c_string}
use pio_esp_mdf_example.Mlink.Device.{Device, get_format}

-- What the callback mlink_device_get_value gives for each format; a `double` as its text of "%lf". It is
-- taken to write a value whenever it returns no negative code; a callback that returns a positive error
-- and writes nothing, so that the value before is sent again, is left out.
pub record Values : Type 0 where
  pub get_int : ℕ → Err × ℕ
  pub get_double : ℕ → Err × List ℕ
  pub get_string : ℕ → Err × Option (List ℕ)

-- The next call of mlink_json_pack on what the call before left
abbrev pub pack_next : JsonApi → List ℕ → Value → Outcome → Outcome
pack_next api key value fault = fault
pack_next api key value (returned n target) = json_pack api target (some key) value

unfoldable pub pack_next_double : JsonApi → List ℕ → List ℕ → Outcome → Outcome
pack_next_double api key text (returned n (pointer memory)) = json_pack_double api memory key text
pack_next_double api key text other = fault

-- `tmp_str` while it is a null pointer
abbrev pub untouched : Outcome
untouched = returned 0 (pointer none)

abbrev pub pack_cid : JsonApi → ℕ → Outcome
pack_cid api cid = pack_next api cid_key (integer cid) untouched

abbrev pub int_status : JsonApi → ℕ → Err × ℕ → Outcome
int_status api cid (ret, v) =
    if is_negative ret then untouched else pack_next api value_key (integer v) (pack_cid api cid)

abbrev pub double_status : JsonApi → ℕ → Err × List ℕ → Outcome
double_status api cid (ret, text) =
    if is_negative ret then untouched else pack_next_double api value_key text (pack_cid api cid)

abbrev pub string_status : JsonApi → ℕ → Err × Option (List ℕ) → Outcome
string_status api cid (ret, text) =
    if is_negative ret then untouched else pack_next api value_key (string text) (pack_cid api cid)

-- The formats CHARACTERISTIC_FORMAT_INT, CHARACTERISTIC_FORMAT_DOUBLE and CHARACTERISTIC_FORMAT_STRING
abbrev pub format_int : ℕ
format_int = 1

abbrev pub format_double : ℕ
format_double = 2

abbrev pub format_string : ℕ
format_string = 3

-- The switch on the format; the callback takes 16 bits of the identifier.
unfoldable pub status_as : JsonApi → Values → ℕ → Option ℕ → Outcome
status_as api values cid none = fault
status_as api values cid (some format) =
    if format == format_int
    then int_status api cid (values.get_int (cid % 2 ^ 16))
    else if format == format_double
    then double_status api cid (values.get_double (cid % 2 ^ 16))
    else if format == format_string
    then string_status api cid (values.get_string (cid % 2 ^ 16))
    else untouched

-- `tmp_str` is packed into the list if it is there.
unfoldable pub pack_status : JsonApi → Outcome → Outcome → Outcome
pack_status api list (returned n (pointer (some memory))) =
    pack_next api array_key (string (some (c_string memory))) list
pack_status api list (returned n (pointer none)) = list
pack_status api list other = fault

-- The loop over the identifiers
unfoldable pub pack_statuses : JsonApi → Values → Device → List ℕ → Outcome → Outcome
pack_statuses api values d [] list = list
pack_statuses api values d (cid ∷ cids) list =
    pack_statuses api values d cids
      (pack_status api list (status_as api values cid (get_format d cid)))

abbrev pub max_cids : ℕ
max_cids = 32

-- The numbers that a request leaves in an array; `none` where it writes past its end or leaves an
-- address in it. What a text leaves is not read, since its number is 0.
unfoldable pub fill : List ℕ → List (ℕ × Slot) → Option (List ℕ)
fill cids [] = some cids
fill cids ((i, int_slot n) ∷ ws) =
    let rest = fill (set cids i n) ws in if ltb i (length cids) then rest else none
fill cids ((i, w) ∷ ws) = none

unfoldable pub cids_in : Written → Option (List ℕ)
cids_in (words ws) = fill (replicate max_cids 0) ws
cids_in (bits w n) = some (set (replicate max_cids 0) 0 n)
cids_in nothing = some (replicate max_cids 0)
cids_in (characters t) = if ltb (length t) (4 * max_cids) then some (replicate max_cids 0) else none
cids_in other = none

-- As many as the request says, which is read as a signed number
unfoldable pub first_cids : ℕ → Option (List ℕ) → Option (List ℕ)
first_cids num none = none
first_cids num (some cids) =
    if is_negative num then some [] else if ltb max_cids num then none else some (take num cids)

-- The response, with the list
unfoldable pub respond : JsonApi → Option (List ℕ) → Outcome → Err × Outcome
respond api resp_data (returned n (pointer (some json))) = (
  mdf_ok,
  json_pack api (pointer resp_data) (some characteristics_key) (string (some (c_string json))),
)
respond api resp_data (returned n (pointer none)) = (mdf_fail, returned 0 (pointer resp_data))
respond api resp_data other = (mdf_fail, fault)

-- From the parsed identifiers on
unfoldable pub answer_cids : JsonApi → Values → Device → Option (List ℕ) → Err × Outcome
answer_cids api values d none = (mdf_fail, fault)
answer_cids api values d (some cids) = respond api none (pack_statuses api values d cids untouched)

-- mlink_handle_get_status, but for its event; `values` is `none` while no callback is set.
unfoldable pub get_status : JsonApi → Cjson → Option Values → Device → List ℕ → Err × Outcome
get_status api cjson none d req = (mdf_fail, untouched)
get_status api cjson (some values) d req =
    let (ret, num) = json_parse cjson (some req) cids_key int32_type in
    let (ret', w) = json_parse cjson (some req) cids_key other_type in
    if not (ret == mdf_ok)
    then (ret, untouched)
    else if not (ret' == mdf_ok)
    then (ret', untouched)
    else answer_cids api values d (first_cids (int_in num) (cids_in w))
