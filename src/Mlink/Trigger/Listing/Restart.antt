-- ===== src/Mlink/Trigger/Listing/Restart.antt =====
-- The list of the triggers after a restart.
use pio_esp_mdf_example.Prelude.{
  ℕ, ◌*◌, ◌≡◌, refl, ap, ◌∙◌, List, [], ◌∷◌, ◌++◌, Option, none, some, false, ◌==◌, length-append,
  arith,
}
use pio_esp_mdf_example.Mcommon.Err.{Err, mdf_ok}
use pio_esp_mdf_example.Mcommon.InfoStore.{Text}
use pio_esp_mdf_example.Mcommon.InfoStore.Laws.{Store, IsStore}
use pio_esp_mdf_example.Mlink.Keys.{trigger_store_key}
use pio_esp_mdf_example.Mlink.Parse.{Cjson}
use pio_esp_mdf_example.Mlink.Trigger.Parse.{got, Listed, trigger_parse}
use pio_esp_mdf_example.Mlink.Trigger.Listing.{max_num, table_bytes, done}
use pio_esp_mdf_example.Mlink.Trigger.Listing.Init.{
  prepend, parse_loaded, load_all, load_copy, trigger_init,
}
use pio_esp_mdf_example.Mlink.Trigger.Listing.Entries.{
  keys_of, length-table_bytes, c_string-text, entries-table_bytes,
}
use pio_esp_mdf_example.Mlink.Trigger.Listing.Stored.{AllKept, IsStored}

-- The list in the opposite order, before another
abbrev pub reversed_onto : List Listed → List Listed → List Listed
reversed_onto [] acc = acc
reversed_onto (t ∷ ts) acc = reversed_onto ts (t ∷ acc)

module _ {S : Type 0} (store : Store S) (content : S → Text → Option (List ℕ))
    (laws : IsStore store content) (cjson : Cjson) (mac_str2hex : List ℕ → ℕ) where
  load_all-kept :
      (ts acc : List Listed) (s : S)
      → AllKept content cjson mac_str2hex s ts
      → load_all store cjson mac_str2hex (keys_of ts) s (got acc)
        ≡ done mdf_ok (reversed_onto ts acc) s
  unfolding load_all
  load_all-kept [] acc s k = refl
  load_all-kept (t ∷ ts) acc s ((raw, held, clean, parsed, size), k) =
      let value : List ℕ = raw ++ (0 ∷ []) in
      let loaded : store.load t.name t.raw_data_size s ≡ (mdf_ok, some value) =
        laws.loaded t.name value t.raw_data_size s held
          (omega (arith, size, length-append raw (0 ∷ []))) in
      let step : parse_loaded cjson mac_str2hex acc (store.load t.name t.raw_data_size s)
          ≡ got (t ∷ acc) =
        ap (parse_loaded cjson mac_str2hex acc) loaded
        ∙ ap (λ r. prepend acc (trigger_parse cjson mac_str2hex r)) (c_string-text raw [] clean)
        ∙ ap (prepend acc) parsed in
      ap (load_all store cjson mac_str2hex (keys_of ts) s) step ∙ load_all-kept ts (t ∷ acc) s k

  load_nothing :
      (s : S) (r : Err × Option (List ℕ))
      → (r.0 == mdf_ok) ≡ false
      → load_copy store cjson mac_str2hex s r ≡ done mdf_ok [] s
  unfolding load_copy
  load_nothing s (ret, none) e = refl
  load_nothing s (ret, some b) e = rw e refl

  -- When the stored information is in step with a list of triggers, mlink_trigger_init after a
  -- restart makes a list of the same triggers, in the opposite order, and returns MDF_OK; it changes
  -- no stored information.
  pub trigger_init_restores :
      (list : List Listed) (s : S)
      → IsStored content cjson mac_str2hex s list
      → trigger_init store cjson mac_str2hex none s ≡ done mdf_ok (reversed_onto list []) s
  unfolding trigger_init load_copy
  trigger_init_restores [] s (copy, k, a, n, len) =
      load_nothing s (store.load trigger_store_key (max_num * 18) s)
        (laws.missing trigger_store_key (max_num * 18) s copy)
  trigger_init_restores (t ∷ ts) s (copy, k, a, n, len) =
      let table : List ℕ = table_bytes (t ∷ ts) in
      let loaded : store.load trigger_store_key (max_num * 18) s ≡ (mdf_ok, some table) =
        laws.loaded trigger_store_key table (max_num * 18) s copy
          (omega (arith, length-table_bytes (t ∷ ts), len)) in
      rw (loaded, entries-table_bytes max_num (t ∷ ts) len a) (load_all-kept (t ∷ ts) [] s k)
