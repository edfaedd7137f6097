-- ===== src/Mlink/Status/Asked.antt =====
-- A request for integer values, from its text to the answer.
use pio_esp_mdf_example.Prelude.{ℕ, ◌+◌, ◌≡◌, List, [], ◌∷◌, Option, some}
use pio_esp_mdf_example.Mlink.Keys.{cids_key}
use pio_esp_mdf_example.Mlink.Parse.{
  Cjson, Item, Element, number_element, array_item, Slot, int_slot,
}
use pio_esp_mdf_example.Mlink.Device.{Device}

-- The words that the numbers of an array are written to
abbrev indexed : ℕ → List ℕ → List (ℕ × Slot)
indexed i [] = []
indexed i (n ∷ ns) = (i, int_slot n) ∷ indexed (i + 1) ns

abbrev pub as_numbers : List ℕ → List Element
as_numbers [] = []
as_numbers (n ∷ ns) = number_element n ∷ as_numbers ns

-- The request holds an array of numbers.
abbrev pub Asks : Cjson → List ℕ → List ℕ → Type 0
Asks cjson req ns =
    (items : List ℕ → Option Item) × (item : Item) × (cjson req ≡ some items)
    × (items cids_key ≡ some item)
    × (item.content ≡ array_item (as_numbers ns))
