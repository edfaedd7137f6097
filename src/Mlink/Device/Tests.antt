-- ===== src/Mlink/Device/Tests.antt =====
-- The theorem on the names of a device at a concrete input.
use pio_esp_mdf_example.Prelude.{ℕ, ◌≡◌, refl, List, [], ◌∷◌, none, some, true, arith}
use pio_esp_mdf_example.Mcommon.InfoStore.{save_opened}
use pio_esp_mdf_example.Mcommon.InfoStore.Laws.{Store, info_store, info_store-IsStore}
use pio_esp_mdf_example.Mcommon.InfoStore.Tests.{Values, nvs, nvs-IsNvs}
use pio_esp_mdf_example.Mlink.Device.{
  Device, add_device, device_set_name, device_set_position, device_get_name, device_get_position,
}
use pio_esp_mdf_example.Mlink.Device.Rename.{add_device_restores}

abbrev store : Store Values
store = info_store nvs

abbrev empty : Values
empty k = none

abbrev device : Device
device = record {
  tid = 1;
  name = [];
  position = [];
  version = [];
  characteristics_num = 0;
  characteristics = none;
}

-- "ab" and "c"
abbrev name : List ℕ
name = 0x61 ∷ 0x62 ∷ []

abbrev position : List ℕ
position = 0x63 ∷ []

add_device_restores_example :
    let s₁ = (device_set_name store (some device) name empty).2 in
    let s₂ = (device_set_position store (some device) position s₁).2 in
    let d' = (add_device store true 7 [] [] none s₂).1 in
    (device_get_name d' ≡ some name) × (device_get_position d' ≡ some position)
unfolding save_opened
add_device_restores_example =
    add_device_restores store (λ s. s) (info_store-IsStore nvs (λ s. s) nvs-IsNvs) device name
      position [] [] 7 empty (omega arith) (omega arith) refl refl
