-- ===== src/Mlink/Trigger/Listing/Kept.antt =====
-- What mlink_trigger_add keeps, and where it writes past the copy of the list.
use pio_esp_mdf_example.Prelude.{
  ℕ, suc, ◌+◌, ◌≤◌, ◌<◌, ◌*◌, ◌%◌, ◌^◌, ◌≡◌, refl, ap, ◌∙◌, List, [], ◌∷◌, ◌++◌, Option, some,
  false, ltb, length, length-append, arith,
}
use pio_esp_mdf_example.Mcommon.Err.{mdf_ok, is_negative}
use pio_esp_mdf_example.Mcommon.InfoStore.{Text, same_text, space_name}
use pio_esp_mdf_example.Mcommon.InfoStore.Laws.{Store, IsStore, same_text_self}
use pio_esp_mdf_example.Mlink.Keys.{trigger_store_key}
use pio_esp_mdf_example.Mlink.Parse.{Cjson}
use pio_esp_mdf_example.Mlink.Json.Bytes.{IsNonZero}
use pio_esp_mdf_example.Mlink.Trigger.{Trigger}
use pio_esp_mdf_example.Mlink.Trigger.Parse.{
  Step, wild, refused, got, ◌>>=◌, Listed, parse_fields, trigger_parse,
}
use pio_esp_mdf_example.Mlink.Trigger.Listing.{
  max_num, table_bytes, Done, overrun, done, write_copy, store_update, remove_same, save_added,
  add_parsed, trigger_add,
}
use pio_esp_mdf_example.Mlink.Trigger.Listing.Entries.{IsEntry, length-table_bytes}
use pio_esp_mdf_example.Mlink.Trigger.Listing.Stored.{
  NoneNamed, AreNamed, AllKept, IsStored, IsReliable,
}
use pio_esp_mdf_example.Mlink.Trigger.Listing.Adding.{
  kept-Agree, save-Agree, copy-Agree, IsLeft, remove_same-IsLeft,
}

-- The operation returned MDF_OK, with a list and a state of this kind.
abbrev pub Succeeds : {S : Type 0} → Done S → (List Listed → S → Type 0) → Type 0
Succeeds overrun P = ⊥
Succeeds (done ret list s) P = (ret ≡ mdf_ok) × P list s

abbrev size_or_zero : Step Listed → ℕ
size_or_zero wild = 0
size_or_zero refused = 0
size_or_zero (got t) = t.raw_data_size

sized :
    (x : Step (List ℕ × Trigger)) (n : ℕ) (t : Listed)
    → (x >>= (λ f. got (record { name = f.0; raw_data_size = n; trigger = f.1 }))) ≡ got t
    → n ≡ t.raw_data_size
sized wild n t e = absurd (cc e)
sized refused n t e = absurd (cc e)
sized (got f) n t e = ap size_or_zero e

parsed_size :
    (cjson : Cjson) (mac_str2hex : List ℕ → ℕ) (raw : List ℕ) (t : Listed)
    → trigger_parse cjson mac_str2hex raw ≡ got t
    → (length raw + 1) % 2 ^ 16 ≡ t.raw_data_size
unfolding trigger_parse
parsed_size cjson mac_str2hex raw t e =
    sized (parse_fields cjson mac_str2hex raw) ((length raw + 1) % 2 ^ 16) t e

fits : (n : ℕ) → n ≤ 32 → ltb 32 n ≡ false
fits n h = ground (arith, h)

module _ {S : Type 0} (store : Store S) (content : S → Text → Option (List ℕ))
    (laws : IsStore store content) (works : IsReliable store content) (cjson : Cjson)
    (mac_str2hex : List ℕ → ℕ) where
  save_added-IsStored :
      (raw : List ℕ) (item : Listed) (list : List Listed) (r : List Listed × S)
      → IsLeft store content laws works cjson mac_str2hex item.name list r
      → length list < max_num
      → IsNonZero raw
      → length raw + 1 ≤ 1984
      → 0 < length item.name
      → trigger_parse cjson mac_str2hex raw ≡ got item
      → length raw + 1 ≡ item.raw_data_size
      → IsEntry item
      → same_text item.name space_name ≡ false
      → same_text trigger_store_key item.name ≡ false
      → Succeeds
          (save_added store raw item r)
          (λ list' s'. IsStored content cjson mac_str2hex s' list')
  unfolding save_added store_update write_copy
  save_added-IsStored raw item list (ts, s) (k, a, n, others, len) room clean small named_so parsed
        size entry free key =
      let s₂ : S = (store.save item.name (raw ++ (0 ∷ [])) s).1 in
      let table : List ℕ = table_bytes (item ∷ ts) in
      let ok₂ : (store.save item.name (raw ++ (0 ∷ [])) s).0 ≡ mdf_ok =
        works.0 item.name (raw ++ (0 ∷ [])) s named_so (omega (arith, entry))
          (omega (arith, length-append raw (0 ∷ []))) (omega (arith, length-append raw (0 ∷ []))) in
      let rows : length table ≡ suc (length ts) * 18 = length-table_bytes (item ∷ ts) in
      let ok₃ : (store.save trigger_store_key table s₂).0 ≡ mdf_ok =
        works.0 trigger_store_key table s₂ (omega arith) (omega arith) (omega (arith, rows))
          (omega (arith, rows, len, room)) in
      let s₃ : S = (store.save trigger_store_key table s₂).1 in
      let named : AreNamed (item ∷ ts) = (others, free, key, n) in
      let kept₂ : AllKept content cjson mac_str2hex s₂ (item ∷ ts) = (
        (
          raw,
          laws.saved item.name (raw ++ (0 ∷ [])) s item.name ok₂
              ∙ rw (same_text_self item.name) refl,
          clean,
          parsed,
          size,
        ),
        kept-Agree store content laws works cjson mac_str2hex s s₂ ts
            (save-Agree store content laws works cjson mac_str2hex item.name (raw ++ (0 ∷ [])) s ts
              others ok₂)
            k,
      ) in
      rw (ok₂, ok₃, fits (suc (length ts)) (omega (arith, len, room)))
        (
          refl,
          (
            laws.saved trigger_store_key table s₂ trigger_store_key ok₃
                ∙ rw (same_text_self trigger_store_key) refl,
            kept-Agree store content laws works cjson mac_str2hex s₂ s₃ (item ∷ ts)
                (copy-Agree store content laws works cjson mac_str2hex table s₂ (item ∷ ts) named
                  ok₃)
                kept₂,
            (entry, a),
            named,
            omega (arith, len, room),
          ),
        )

  -- Over a dictionary that saves every value of 1 to 1984 bytes under a key of 1 to 15 and erases
  -- every key that it holds: from a list of fewer than 32 triggers that is in step with the stored
  -- information, mlink_trigger_add of a text that is parsed, is at most 1984 bytes long with its NUL,
  -- and gives a trigger whose name has 1 to 15 bytes and is neither that of the copy nor that of the
  -- namespace returns MDF_OK, and leaves a list that is in step: its copy is stored, and so is the
  -- text of every trigger in it, under names that differ also in lower case.
  pub trigger_add-IsStored :
      (raw : List ℕ) (item : Listed) (list : List Listed) (s : S)
      → IsStored content cjson mac_str2hex s list
      → length list < max_num
      → IsNonZero raw
      → length raw + 1 ≤ 1984
      → trigger_parse cjson mac_str2hex raw ≡ got item
      → IsNonZero item.name
      → 0 < length item.name
      → length item.name < 16
      → same_text item.name space_name ≡ false
      → same_text trigger_store_key item.name ≡ false
      → Succeeds
          (trigger_add store cjson mac_str2hex (some raw) (some list) s)
          (λ list' s'. IsStored content cjson mac_str2hex s' list')
  unfolding trigger_add add_parsed
  trigger_add-IsStored raw item list s (copy, k, a, n, len) room clean small parsed named some_name
        short free key =
      let size : (length raw + 1) % 2 ^ 16 ≡ item.raw_data_size =
        parsed_size cjson mac_str2hex raw item parsed in
      rw parsed (
        save_added-IsStored raw item list (remove_same store item.name list s)
          (remove_same-IsLeft store content laws works cjson mac_str2hex item.name list s k a n)
          room clean small some_name parsed (omega (arith, size, small))
          (omega (arith, size, small), omega (arith, size, small), named, short) free key)

remove_none :
    {S : Type 0}
    → (store : Store S) (name : List ℕ) (list : List Listed) (s : S) → NoneNamed name list
    → remove_same store name list s ≡ (list, s)
unfolding remove_same
remove_none store name [] s h = refl
remove_none store name (t ∷ ts) s (a, h) = rw (a, remove_none store name ts s h) refl

-- With 32 triggers in the list, mlink_trigger_add of one with another name, whose text is stored,
-- writes its copy of the list past the memory for 32 entries: nothing limits the list.
full_list_overruns :
    {S : Type 0}
    → (store : Store S) (cjson : Cjson) (mac_str2hex : List ℕ → ℕ) (raw : List ℕ) (item : Listed)
      (list : List Listed) (s : S)
    → length list ≡ max_num
    → trigger_parse cjson mac_str2hex raw ≡ got item
    → NoneNamed item.name list
    → is_negative (store.save item.name (raw ++ (0 ∷ [])) s).0 ≡ false
    → trigger_add store cjson mac_str2hex (some raw) (some list) s ≡ overrun
unfolding trigger_add add_parsed save_added store_update
full_list_overruns store cjson mac_str2hex raw item list s full parsed others saved =
    rw (parsed, remove_none store item.name list s others, saved, full) refl
