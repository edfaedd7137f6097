-- ===== src/Mlink/Trigger/Listing/Wiped.antt =====
-- A trigger whose name is that of the namespace of the stored information.
use pio_esp_mdf_example.Prelude.{
  ℕ, ◌≡◌, refl, ap, ◌∙◌, List, [], ◌∷◌, ◌++◌, Option, none, true, ◌==◌, Bool-cases, inl, inr,
}
use pio_esp_mdf_example.Mcommon.Err.{mdf_ok}
use pio_esp_mdf_example.Mcommon.InfoStore.{Text, Nvs, space_name, erase_opened}
use pio_esp_mdf_example.Mcommon.InfoStore.Laws.{info_store, IsNvs, same_text_self}
use pio_esp_mdf_example.Mlink.Handle.{same_name}
use pio_esp_mdf_example.Mlink.Trigger.Parse.{Listed}
use pio_esp_mdf_example.Mlink.Trigger.Listing.{remove_named}
use pio_esp_mdf_example.Mlink.Trigger.Listing.Stored.{NoneNamed}

module _ {S : Type 0} (nvs : Nvs S) (content : S → Text → Option (List ℕ))
    (laws : IsNvs nvs content) (all : (s : S) → (nvs.erase_all s).0 ≡ mdf_ok)
    (gone : (s : S) (k : Text) → content (nvs.erase_all s).1 k ≡ none) where
  erase_space : (s : S) → erase_opened nvs space_name s ≡ (mdf_ok, nvs.commit (nvs.erase_all s).1)
  unfolding erase_opened
  erase_space s =
      rw (laws.opens s, same_text_self space_name, all s)
        (elim (Bool-cases (mdf_ok == nvs.not_found)) [ inl e ↦ rw e refl | inr e ↦ rw e refl ])

  -- Over an NVS library that works as documented, the request to remove a trigger whose name is
  -- "ESP-MDF", wherever it first stands in the list, finds and removes it, and erases all the stored
  -- information of the program, whatever its key.
  space_trigger_wipes :
      (name : List ℕ) (before ts : List Listed) (t : Listed) (s : S) (k : Text)
      → NoneNamed name before
      → t.name ≡ space_name
      → same_name space_name name ≡ true
      → ((remove_named (info_store nvs) name (before ++ (t ∷ ts)) s).0 ≡ mdf_ok)
        × ((remove_named (info_store nvs) name (before ++ (t ∷ ts)) s).1 ≡ before ++ ts)
        × (content (remove_named (info_store nvs) name (before ++ (t ∷ ts)) s).2 k ≡ none)
  unfolding remove_named
  space_trigger_wipes name [] ts t s k h e same =
      rw (e, same, erase_space s) (refl, refl, laws.committed (nvs.erase_all s).1 k ∙ gone s k)
  space_trigger_wipes name (u ∷ before) ts t s k (a, h) e same =
      let (ok, list, wiped) = space_trigger_wipes name before ts t s k h e same in
      rw a (ok, ap (λ l. u ∷ l) list, wiped)
