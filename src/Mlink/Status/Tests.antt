-- ===== src/Mlink/Status/Tests.antt =====
-- The theorem on requests for values at a concrete input.
use pio_esp_mdf_example.Prelude.{[], ◌∷◌, none, some}
use pio_esp_mdf_example.Mcommon.Err.{mdf_ok}
use pio_esp_mdf_example.Mlink.Parse.{Cjson, Item, array_item}
use pio_esp_mdf_example.Mlink.Device.{Characteristic, Device}
use pio_esp_mdf_example.Mlink.Status.{Values, format_int}
use pio_esp_mdf_example.Mlink.Status.Asked.{as_numbers}

abbrev characteristic : Characteristic
characteristic = record {
  cid = 5;
  perms = 3;
  format = format_int;
  step = 1;
  min = 0;
  max = 100;
  name = [];
}

abbrev device : Device
device = record {
  tid = 1;
  name = [];
  position = [];
  version = [];
  characteristics_num = 1;
  characteristics = some (characteristic ∷ []);
}

abbrev values : Values
values = record {
  get_int = λ cid. (mdf_ok, 42);
  get_double = λ cid. (mdf_ok, []);
  get_string = λ cid. (mdf_ok, none);
}

abbrev item : Item
item = record {
  content = array_item (as_numbers (5 ∷ 5 ∷ []));
  valueint = 0;
  valuedouble = 0;
  valuefloat = 0;
}

abbrev cjson : Cjson
cjson req = some (λ key. some item)
