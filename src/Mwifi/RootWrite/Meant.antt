-- ===== src/Mwifi/RootWrite/Meant.antt =====
-- The devices that the list of addresses of mwifi_root_write means.
use pio_esp_mdf_example.Prelude.{
  ◌≡◌, refl, sym, ap, ◌∙◌, ◌⊎◌, inl, inr, Bool, true, false, List, [], ◌∷◌, ◌++◌, count, arith,
}
use pio_esp_mdf_example.Mwifi.Transmit.{Addr, addrs_remove}

-- The table without the first entry of the root, if it has one
abbrev pub IsWithout : Addr → List Addr → List Addr → Type 0
IsWithout self table list =
    ((count self table ≡ 0) × (list ≡ table))
    ⊎ ((before : List Addr) × (behind : List Addr) × (table ≡ before ++ (self ∷ behind))
        × (count self before ≡ 0)
        × (list ≡ before ++ behind))

-- The devices that a list of addresses means: by whether it begins with the address for all but the
-- root, and whether with that for all
abbrev pub IsMeant : Bool → Bool → Addr → List Addr → List Addr → List Addr → Type 0
IsMeant true any self table addrs list = IsWithout self table list
IsMeant false true self table addrs list = list ≡ table
IsMeant false false self table addrs list = list ≡ addrs

remove_absent :
    (self : Addr) (table : List Addr) → count self table ≡ 0 → (addrs_remove table self).1 ≡ table
unfolding addrs_remove
remove_absent self [] h = refl
remove_absent self (a ∷ table) h = ground (arith, h, remove_absent self table)

remove_first :
    (self : Addr) (before behind : List Addr)
    → count self before ≡ 0
    → (addrs_remove (before ++ (self ∷ behind)) self).1 ≡ before ++ behind
unfolding addrs_remove
remove_first self [] behind h = ground arith
remove_first self (a ∷ before) behind h = ground (arith, h, remove_first self before behind)

pub IsWithout-remove :
    (self : Addr) (table list : List Addr)
    → IsWithout self table list
    → (addrs_remove table self).1 ≡ list
IsWithout-remove self table list (inl (none_there, e)) = remove_absent self table none_there ∙ sym e
IsWithout-remove self table list (inr (before, behind, e, first, e')) =
    ap (λ t. (addrs_remove t self).1) e ∙ remove_first self before behind first ∙ sym e'
