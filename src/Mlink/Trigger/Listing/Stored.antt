-- ===== src/Mlink/Trigger/Listing/Stored.antt =====
-- The stored information that belongs to a list of triggers, and how adding a trigger keeps it.
use pio_esp_mdf_example.Prelude.{
  ℕ, ◌+◌, ◌≤◌, ◌<◌, ◌≡◌, refl, ap, List, [], ◌∷◌, ◌++◌, Option, none, some, Bool, true, false, ◌&&◌,
  ◌==◌, length, arith, Bool-cases, inl, inr,
}
use pio_esp_mdf_example.Mcommon.Err.{mdf_ok}
use pio_esp_mdf_example.Mcommon.InfoStore.{Text, same_text, space_name}
use pio_esp_mdf_example.Mcommon.InfoStore.Laws.{Store}
use pio_esp_mdf_example.Mlink.Keys.{trigger_store_key}
use pio_esp_mdf_example.Mlink.Parse.{Cjson}
use pio_esp_mdf_example.Mlink.Json.Bytes.{IsNonZero}
use pio_esp_mdf_example.Mlink.Handle.{same_name, to_lower}
use pio_esp_mdf_example.Mlink.Trigger.Parse.{got, Listed, trigger_parse}
use pio_esp_mdf_example.Mlink.Trigger.Listing.{max_num, table_bytes}
use pio_esp_mdf_example.Mlink.Trigger.Listing.Entries.{AllEntries}

==_self : (n : ℕ) → (n == n) ≡ true
==_self n = ground arith

and_self : (n m : ℕ) (b : Bool) → n ≡ m → ((n == m) && b) ≡ false → b ≡ false
and_self n m b e h = ground (arith, e, h)

equal : (n m : ℕ) → (n == m) ≡ true → n ≡ m
equal n m h = ground (arith, h)

same_name_self : (a : List ℕ) → same_name a a ≡ true
unfolding same_name
same_name_self [] = refl
same_name_self (c ∷ cs) = rw (==_self (to_lower c), same_name_self cs) refl

-- Names that differ up to case are different texts.
pub differ : (a b : List ℕ) → same_name a b ≡ false → same_text a b ≡ false
unfolding same_name same_text
differ [] [] h = h
differ [] (d ∷ ds) h = refl
differ (c ∷ cs) [] h = refl
differ (c ∷ cs) (d ∷ ds) h = elim (Bool-cases (c == d)) [
  | inl e ↦ rw e (
      differ cs ds (
        and_self (to_lower c) (to_lower d) (same_name cs ds) (ap (λ n. to_lower n) (equal c d e))
          h))
  | inr e ↦ rw e refl
]

-- No trigger of the list has this name, up to case.
abbrev pub NoneNamed : List ℕ → List Listed → Type 0
NoneNamed name [] = Unit
NoneNamed name (t ∷ ts) = (same_name t.name name ≡ false) × NoneNamed name ts

-- The names differ, and none is that of the copy or stands for the whole namespace.
abbrev pub AreNamed : List Listed → Type 0
AreNamed [] = Unit
AreNamed (t ∷ ts) =
    NoneNamed t.name ts
    × (same_text t.name space_name ≡ false)
    × (same_text trigger_store_key t.name ≡ false)
    × AreNamed ts

abbrev pub copy_of : List Listed → Option (List ℕ)
copy_of [] = none
copy_of (t ∷ ts) = some (table_bytes (t ∷ ts))

module _ {S : Type 0} (content : S → Text → Option (List ℕ)) (cjson : Cjson)
    (mac_str2hex : List ℕ → ℕ) where
  -- The text of the trigger is stored under its name.
  abbrev pub IsKept : S → Listed → Type 0
  IsKept s t =
      (raw : List ℕ) × (content s t.name ≡ some (raw ++ (0 ∷ [])))
      × IsNonZero raw
      × (trigger_parse cjson mac_str2hex raw ≡ got t)
      × (length raw + 1 ≡ t.raw_data_size)

  abbrev pub AllKept : S → List Listed → Type 0
  AllKept s [] = Unit
  AllKept s (t ∷ ts) = IsKept s t × AllKept s ts

  -- The information behind the list: its copy, and every text
  abbrev pub IsStored : S → List Listed → Type 0
  IsStored s list =
      (content s trigger_store_key ≡ copy_of list)
      × AllKept s list
      × AllEntries list
      × AreNamed list
      × (length list ≤ max_num)

-- The store saves a value of 1 to 1984 bytes under a key of 1 to 15, the lengths that
-- mdf_info_store.h documents, and erases a key that it holds.
abbrev pub IsReliable : {S : Type 0} → Store S → (S → Text → Option (List ℕ)) → Type 0
IsReliable {S} store content =
    ((k : Text) (v : List ℕ) (s : S)
      → 0 < length k
      → length k ≤ 15
      → 0 < length v
      → length v ≤ 1984
      → (store.save k v s).0 ≡ mdf_ok)
    × ((k v : List ℕ) (s : S) → content s k ≡ some v → (store.erase k s).0 ≡ mdf_ok)
