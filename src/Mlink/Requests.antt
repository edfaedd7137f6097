-- ===== src/Mlink/Requests.antt =====
-- The requests that set something of a device: mlink_handle_set_status, mlink_handle_set_name and
-- mlink_handle_set_position of esp-mdf/components/mlink/mlink_handle.c.
pub mod Sets
use pio_esp_mdf_example.Prelude.{
  ℕ, ◌%◌, ◌^◌, List, [], ◌∷◌, ◌++◌, Option, none, some, Bool, true, false, not, ◌==◌, if◌then◌else◌,
}
use pio_esp_mdf_example.Mcommon.Err.{Err, mdf_ok, mdf_fail, is_negative}
use pio_esp_mdf_example.Mcommon.InfoStore.Laws.{Store}
use pio_esp_mdf_example.Mlink.Keys.{name_key, position_key, cid_key, value_key, characteristics_key}
use pio_esp_mdf_example.Mlink.Parse.{
  Cjson, int32_type, double_type, string_type, pointer_type, other_type, Written, copy, json_parse,
  text_in, int_in,
}
use pio_esp_mdf_example.Mlink.Trigger.Listing.{events}
use pio_esp_mdf_example.Mlink.Device.{Device, get_format, device_set_name, device_set_position}
use pio_esp_mdf_example.Mlink.Status.{format_int, format_double, format_string}

-- A call of mlink_device_set_value, with the value that its format asks for. Its result is only logged.
pub data Call : Type 0 where
  set_int set_double : ℕ → ℕ → Call
  set_string : ℕ → List ℕ → Call

abbrev pub cons_call : Option Call → Option (List Call) → Option (List Call)
cons_call none calls = none
cons_call (some c) none = none
cons_call (some c) (some cs) = some (c ∷ cs)

-- The text behind value_string; `none` is a pointer that was not set, or not to a text.
abbrev pub string_call : ℕ → Written → Option Call
string_call cid (copy t) = some (set_string cid t)
string_call cid other = none

-- The switch on the format, before the calls of the objects behind; the callback takes 16 bits of the
-- identifier.
unfoldable pub set_as :
    Cjson → Option (List ℕ) → ℕ → Option ℕ → Option (List Call) → Option (List Call)
set_as cjson raw cid none calls = none
set_as cjson raw cid (some format) calls =
    let (ret, w) = json_parse cjson raw value_key int32_type in
    let (ret', w') = json_parse cjson raw value_key double_type in
    let (ret'', w'') = json_parse cjson raw value_key pointer_type in
    if format == format_int
    then (if ret == mdf_ok
        then cons_call (some (set_int (cid % 2 ^ 16) (int_in w))) calls
        else calls)
    else if format == format_double
    then (if ret' == mdf_ok
        then cons_call (some (set_double (cid % 2 ^ 16) (int_in w'))) calls
        else calls)
    else if format == format_string
    then (if ret'' == mdf_ok then cons_call (string_call (cid % 2 ^ 16) w'') calls else calls)
    else calls

-- The loop over the objects of the request
unfoldable pub set_all : Cjson → Device → List (Option (List ℕ)) → Option (List Call)
set_all cjson d [] = some []
set_all cjson d (raw ∷ raws) =
    let (ret, w) = json_parse cjson raw cid_key int32_type in
    let rest = set_all cjson d raws in
    let set = set_as cjson raw (int_in w) (get_format d (int_in w)) rest in
    if ret == mdf_ok then set else rest

unfoldable pub set_each :
    Cjson → Device → Option (List (Option (List ℕ))) → Option (Err × List Call)
set_each cjson d none = none
set_each cjson d (some raws) = elim (set_all cjson d raws) [
  | none ↦ none
  | some calls ↦ some (mdf_ok, calls)
]

-- mlink_handle_set_status, but for its event; `settable` is whether the callback is set.
unfoldable pub set_status : Cjson → Bool → Device → List ℕ → Option (Err × List Call)
set_status cjson settable d req =
    let (ret, num) = json_parse cjson (some req) characteristics_key int32_type in
    let (ret', w) = json_parse cjson (some req) characteristics_key other_type in
    if not settable
    then some (mdf_fail, [])
    else if not (ret == mdf_ok)
    then some (ret, [])
    else if not (ret' == mdf_ok)
    then some (ret', [])
    else set_each cjson d (events (int_in num) w)

abbrev pub Renamed : Type 0 → Type 0
Renamed S = Err × Option Device × S

abbrev pub logged : {S : Type 0} → Renamed S → Renamed S
logged (ret, d, s) = (if is_negative ret then ret else mdf_ok, d, s)

-- mlink_handle_set_name; `none` is a name that does not fit its array.
unfoldable pub request_name :
    {S : Type 0} → Store S → Cjson → Option Device → List ℕ → S → Option (Renamed S)
request_name store cjson d req s =
    let (ret, w) = json_parse cjson (some req) name_key string_type in
    if is_negative ret then some (ret, d, s) else elim (text_in 32 w) [
      | none ↦ none
      | some name ↦ some (logged (device_set_name store d name s))
    ]

-- mlink_handle_set_position
unfoldable pub request_position :
    {S : Type 0} → Store S → Cjson → Option Device → List ℕ → S → Option (Renamed S)
request_position store cjson d req s =
    let (ret, w) = json_parse cjson (some req) position_key string_type in
    if is_negative ret then some (ret, d, s) else elim (text_in 32 w) [
      | none ↦ none
      | some position ↦ some (logged (device_set_position store d position s))
    ]
