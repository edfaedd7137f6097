-- ===== src/Mlink/Device.antt =====
-- The information on a device: mlink_add_device, mlink_device_set_name and its companions,
-- mlink_add_characteristic and mlink_get_characteristics_format of
-- esp-mdf/components/mlink/mlink_handle.c.
pub mod Rename
mod Tests
use pio_esp_mdf_example.Prelude.{
  ℕ, zero, suc, Bool, true, false, ◌+◌, ◌%◌, ◌^◌, List, [], ◌∷◌, ◌++◌, Option, none, some, ◌==◌,
  if◌then◌else◌, take,
}
use pio_esp_mdf_example.Mcommon.Err.{
  Err, mdf_ok, mdf_fail, mdf_err_no_mem, mdf_err_invalid_arg, is_negative,
}
use pio_esp_mdf_example.Mcommon.InfoStore.Laws.{Store}
use pio_esp_mdf_example.Mlink.Keys.{device_name_key, device_position_key}
use pio_esp_mdf_example.Mlink.Trigger.Listing.{padded}
use pio_esp_mdf_example.Mlink.Trigger.Listing.Init.{c_string}

-- mlink_characteristics_t
pub record Characteristic : Type 0 where
  pub cid : ℕ
  pub perms : ℕ
  pub format : ℕ
  pub step : ℕ
  pub min : ℕ
  pub max : ℕ
  pub name : List ℕ

-- mlink_device_t: `characteristics` is the memory behind the pointer, `none` a null one, and
-- `characteristics_num` a number of 8 bits.
pub record Device : Type 0 where
  pub tid : ℕ
  pub name : List ℕ
  pub position : List ℕ
  pub version : List ℕ
  pub characteristics_num : ℕ
  pub characteristics : Option (List Characteristic)

-- strncpy into all but the last of 32 characters, the last of which is 0
abbrev pub fit : List ℕ → List ℕ
fit text = take 31 text

-- The text in an array of 32 zeroed characters after mdf_info_load: `other` where it fails
abbrev pub loaded_or : List ℕ → Err × Option (List ℕ) → List ℕ
loaded_or other (ret, none) = if ret == mdf_ok then [] else other
loaded_or other (ret, some v) = if ret == mdf_ok then c_string v else other

-- mlink_add_device; `there` is whether the memory for a first device is there. What mdf_info_load
-- leaves of a position that it cannot load is no text.
unfoldable pub add_device :
    {S : Type 0} → Store S → Bool → ℕ → List ℕ → List ℕ → Option Device → S → Err × Option Device
add_device store false tid name version none s = (mdf_err_no_mem, none)
add_device store there tid name version device s = (
  mdf_ok,
  some (record {
    tid = tid;
    name = loaded_or (fit name) (store.load device_name_key 32 s);
    position = loaded_or [] (store.load device_position_key 32 s);
    version = fit version;
    characteristics_num = 0;
    characteristics = none;
  }),
)

abbrev pub saved : {S : Type 0} → Device → Err × S → Err × Option Device × S
saved d (ret, s) = (if is_negative ret then mdf_fail else mdf_ok, some d, s)

-- mlink_device_set_name: all 32 characters are saved.
unfoldable pub device_set_name :
    {S : Type 0} → Store S → Option Device → List ℕ → S → Err × Option Device × S
device_set_name store none name s = (mdf_err_invalid_arg, none, s)
device_set_name store (some d) name s =
    saved (record d { name = fit name }) (store.save device_name_key (padded 32 (fit name)) s)

-- mlink_device_set_position
unfoldable pub device_set_position :
    {S : Type 0} → Store S → Option Device → List ℕ → S → Err × Option Device × S
device_set_position store none position s = (mdf_err_invalid_arg, none, s)
device_set_position store (some d) position s =
    saved (record d { position = fit position })
      (store.save device_position_key (padded 32 (fit position)) s)

-- mlink_device_get_name, mlink_device_get_position, mlink_device_get_version and mlink_device_get_tid
unfoldable pub device_get_name : Option Device → Option (List ℕ)
device_get_name none = none
device_get_name (some d) = some d.name

unfoldable pub device_get_position : Option Device → Option (List ℕ)
device_get_position none = none
device_get_position (some d) = some d.position

unfoldable pub device_get_version : Option Device → Option (List ℕ)
device_get_version none = none
device_get_version (some d) = some d.version

unfoldable pub device_get_tid : Option Device → ℕ
device_get_tid none = mdf_err_invalid_arg
device_get_tid (some d) = d.tid

abbrev pub held : Option (List Characteristic) → List Characteristic
held none = []
held (some cs) = cs

-- mlink_add_characteristic: `realloc` is whether there is memory; without it the pointer is lost, and
-- the number stays. The array gets room for one more than the number says, and keeps no more.
unfoldable pub add_characteristic : Bool → Option Device → Characteristic → Err × Option Device
add_characteristic realloc none c = (mdf_err_invalid_arg, none)
add_characteristic false (some d) c = (mdf_err_no_mem, some (record d { characteristics = none }))
add_characteristic true (some d) c = (
  mdf_ok,
  some (record d {
    characteristics_num = (d.characteristics_num + 1) % 2 ^ 8;
    characteristics = some (
        take d.characteristics_num (held d.characteristics)
        ++ (record c {
          cid = c.cid % 2 ^ 16;
          perms = c.perms % 2 ^ 8;
          format = c.format % 2 ^ 8;
          step = c.step % 2 ^ 16;
          name = fit c.name;
        }
            ∷ []));
  }),
)

-- CHARACTERISTIC_FORMAT_NONE
abbrev pub format_none : ℕ
format_none = 0

-- The loop of mlink_get_characteristics_format, as many turns as the number says: the first
-- characteristic with the identifier. The result `none` is a read outside of the array.
unfoldable pub format_in : ℕ → List Characteristic → ℕ → Option ℕ
format_in zero cs cid = some format_none
format_in (suc n) [] cid = none
format_in (suc n) (c ∷ cs) cid =
    let rest = format_in n cs cid in if c.cid == cid then some c.format else rest

-- mlink_get_characteristics_format
unfoldable pub get_format : Device → ℕ → Option ℕ
get_format d cid = format_in d.characteristics_num (held d.characteristics) (cid % 2 ^ 16)
