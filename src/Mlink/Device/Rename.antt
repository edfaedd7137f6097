-- ===== src/Mlink/Device/Rename.antt =====
-- A name of the device that survives a restart.
use pio_esp_mdf_example.Prelude.{
  ℕ, zero, suc, ◌≡◌, refl, ap, ◌∙◌, List, [], ◌∷◌, Option, none, some, true, false, take,
  length-take, arith,
}
use pio_esp_mdf_example.Mcommon.Err.{mdf_ok}
use pio_esp_mdf_example.Mcommon.InfoStore.{Text, same_text}
use pio_esp_mdf_example.Mcommon.InfoStore.Laws.{Store, IsStore, same_text_self}
use pio_esp_mdf_example.Mlink.Keys.{device_name_key, device_position_key}
use pio_esp_mdf_example.Mlink.Json.Bytes.{IsNonZero}
use pio_esp_mdf_example.Mlink.Trigger.Listing.{padded}
use pio_esp_mdf_example.Mlink.Trigger.Listing.Init.{c_string}
use pio_esp_mdf_example.Mlink.Trigger.Listing.Entries.{length-padded, c_string-padded}
use pio_esp_mdf_example.Mlink.Device.{
  Device, fit, loaded_or, add_device, device_set_name, device_set_position, device_get_name,
  device_get_position,
}

take-IsNonZero : (n : ℕ) (cs : List ℕ) → IsNonZero cs → IsNonZero (take n cs)
take-IsNonZero zero cs h = tt
take-IsNonZero (suc n) [] h = tt
take-IsNonZero (suc n) (c ∷ cs) (h, hs) = (h, take-IsNonZero n cs hs)

-- What is saved of a text is read back.
fit_again : (text : List ℕ) → IsNonZero text → c_string (padded 32 (fit text)) ≡ fit text
fit_again text h =
    c_string-padded 32 (fit text) (take-IsNonZero 31 text h) (omega (arith, length-take 31 text))

module _ {S : Type 0} (store : Store S) (content : S → Text → Option (List ℕ))
    (laws : IsStore store content) where
  load_text :
      (key text other : List ℕ) (s : S)
      → IsNonZero text
      → content s key ≡ some (padded 32 (fit text))
      → loaded_or other (store.load key 32 s) ≡ fit text
  load_text key text other s clean held =
      ap (loaded_or other) (
        laws.loaded key (padded 32 (fit text)) 32 s held
          (omega (arith, length-padded 32 (fit text))))
      ∙ fit_again text clean

  keys_differ : same_text device_position_key device_name_key ≡ false
  unfolding same_text
  keys_differ = refl

  -- After mlink_device_set_name of a text and mlink_device_set_position of another, both saved,
  -- mlink_add_device on a device that was started again, with whatever default name and version,
  -- gives the device the first 31 characters of these texts as its name and position.
  pub add_device_restores :
      (d : Device) (name position default version : List ℕ) (tid : ℕ) (s : S)
      → IsNonZero name
      → IsNonZero position
      → (store.save device_name_key (padded 32 (fit name)) s).0 ≡ mdf_ok
      → (store.save device_position_key
          (padded 32 (fit position))
          (device_set_name store (some d) name s).2).0
        ≡ mdf_ok
      → let s₁ = (device_set_name store (some d) name s).2 in
        let s₂ = (device_set_position store (some d) position s₁).2 in
        let d' = (add_device store true tid default version none s₂).1 in
        (device_get_name d' ≡ some (fit name)) × (device_get_position d' ≡ some (fit position))
  unfolding add_device device_set_name device_set_position device_get_name device_get_position
  add_device_restores d name position default version tid s clean clean' works works' =
      let s₁ : S = (store.save device_name_key (padded 32 (fit name)) s).1 in
      let s₂ : S = (store.save device_position_key (padded 32 (fit position)) s₁).1 in
      (
        ap (λ t. some t)
            (load_text device_name_key name (fit default) s₂ clean (
              laws.saved device_position_key (padded 32 (fit position)) s₁ device_name_key works'
              ∙ rw keys_differ refl
              ∙ laws.saved device_name_key (padded 32 (fit name)) s device_name_key works
              ∙ rw (same_text_self device_name_key) refl)),
        ap (λ t. some t)
            (load_text device_position_key position [] s₂ clean' (
              laws.saved device_position_key (padded 32 (fit position)) s₁ device_position_key
                works'
              ∙ rw (same_text_self device_position_key) refl)),
      )
