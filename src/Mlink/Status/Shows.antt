-- ===== src/Mlink/Status/Shows.antt =====
-- The answer to a request for integer values.
use mathlib.Core.Path.{subst}
use pio_esp_mdf_example.Prelude.{
  ℕ, false, ◌%◌, ◌^◌, ◌≡◌, refl, sym, ap, ◌∙◌, List, [], ◌∷◌, none, some, replicate, arith,
}
use pio_esp_mdf_example.Mcommon.Err.{is_negative}
use pio_esp_mdf_example.Mlink.Keys.{cid_key, value_key, array_key}
use pio_esp_mdf_example.Mlink.Json.{
  JsonApi, Value, integer, string, missing, pointer, array, Outcome, fault, returned, brace,
}
use pio_esp_mdf_example.Mlink.Json.Bytes.{IsNonZero}
use pio_esp_mdf_example.Mlink.Json.Members.{Member, IsHeap}
use pio_esp_mdf_example.Mlink.Json.Render.{
  pack_all, render, Built, pack_all_renders, render-IsNonZero,
}
use pio_esp_mdf_example.Mlink.Trigger.Listing.Init.{c_string}
use pio_esp_mdf_example.Mlink.Trigger.Listing.Entries.{c_string-text}
use pio_esp_mdf_example.Mlink.Trigger.Listing.Report.{as_members}
use pio_esp_mdf_example.Mlink.Device.{Device, get_format}
use pio_esp_mdf_example.Mlink.Status.{
  Values, pack_next, untouched, pack_cid, format_int, status_as, pack_status, pack_statuses,
}

-- The object for one identifier
abbrev pub object_text : JsonApi → Values → ℕ → List ℕ
object_text api values cid =
    render api brace (cid_key, integer cid)
      ((value_key, integer (values.get_int (cid % 2 ^ 16)).1) ∷ [])

abbrev pub objects : JsonApi → Values → List ℕ → List (List ℕ)
objects api values [] = []
objects api values (cid ∷ cids) = object_text api values cid ∷ objects api values cids

-- Each identifier is that of an integer which the callback gives.
abbrev pub AllInts : Values → Device → List ℕ → Type 0
AllInts values d [] = Unit
AllInts values d (cid ∷ cids) =
    (get_format d cid ≡ some format_int)
    × (is_negative (values.get_int (cid % 2 ^ 16)).0 ≡ false)
    × AllInts values d cids

pack_all_next :
    (api : JsonApi) (o : Outcome) (key : List ℕ) (v : Value) (ms : List Member)
    → pack_all api (pack_next api key v o) ms ≡ pack_all api o ((key, v) ∷ ms)
pack_all_next api fault key v [] = refl
pack_all_next api fault key v (m ∷ ms) = refl
pack_all_next api (returned n target) key v ms = refl

module _ (api : JsonApi) (heap : IsHeap api) (plain : (n : ℕ) → IsNonZero (api.decimal n))
    (there : (n : ℕ) → api.calloc n ≡ some (replicate n 0)) where
  pub object-IsNonZero : (values : Values) (cid : ℕ) → IsNonZero (object_text api values cid)
  object-IsNonZero values cid =
      render-IsNonZero api heap plain brace (cid_key, integer cid)
        ((value_key, integer (values.get_int (cid % 2 ^ 16)).1) ∷ [])
        ((refl, omega arith, tt), ((refl, omega arith, tt), tt))

  pack_status-Built :
      (o list : Outcome) (text : List ℕ)
      → IsNonZero text
      → Built o text
      → pack_status api list o ≡ pack_next api array_key (string (some text)) list
  unfolding pack_status
  pack_status-Built fault list text clean h = elim h [ ]
  pack_status-Built (returned n missing) list text clean h = elim h [ ]
  pack_status-Built (returned n (pointer none)) list text clean h = elim h [ ]
  pack_status-Built (returned n (pointer (some memory))) list text clean (size, (q, m)) =
      ap (λ t. pack_next api array_key (string (some t)) list)
        (ap c_string m ∙ c_string-text text q clean)
  pack_status-Built (returned n (array memory)) list text clean h = elim h [ ]

  status-Built :
      (values : Values) (d : Device) (cid : ℕ)
      → get_format d cid ≡ some format_int
      → is_negative (values.get_int (cid % 2 ^ 16)).0 ≡ false
      → Built (status_as api values cid (get_format d cid)) (object_text api values cid)
  unfolding status_as
  status-Built values d cid int works =
      rw (int, works)
        (subst (λ o. Built o (object_text api values cid))
          (sym (
              pack_all_next api untouched cid_key (integer cid)
                ((value_key, integer (values.get_int (cid % 2 ^ 16)).1) ∷ []))
            ∙ pack_all_next api (pack_cid api cid) value_key
                (integer (values.get_int (cid % 2 ^ 16)).1) [])
          (pack_all_renders api heap plain there brace 0 (cid_key, integer cid)
            ((value_key, integer (values.get_int (cid % 2 ^ 16)).1) ∷ [])
            ((refl, omega arith, tt), ((refl, omega arith, tt), tt))))

  pub packs_objects :
      (values : Values) (d : Device) (cids : List ℕ) (list : Outcome)
      → AllInts values d cids
      → pack_statuses api values d cids list
        ≡ pack_all api list (as_members (objects api values cids))
  unfolding pack_statuses
  packs_objects values d [] list h = refl
  packs_objects values d (cid ∷ cids) list (int, works, h) =
      ap (pack_statuses api values d cids) (
        pack_status-Built (status_as api values cid (get_format d cid)) list
          (object_text api values cid) (object-IsNonZero values cid)
          (status-Built values d cid int works))
      ∙ packs_objects values d cids
          (pack_next api array_key (string (some (object_text api values cid))) list) h
      ∙ pack_all_next api list array_key (string (some (object_text api values cid)))
          (as_members (objects api values cids))
