-- ===== src/Mlink/Requests/Sets.antt =====
-- The calls that a request for integer values makes.
use pio_esp_mdf_example.Prelude.{ℕ, ◌%◌, ◌^◌, ◌≡◌, refl, List, [], ◌∷◌, Option, some}
use pio_esp_mdf_example.Mcommon.Err.{mdf_ok}
use pio_esp_mdf_example.Mlink.Keys.{cid_key, value_key}
use pio_esp_mdf_example.Mlink.Parse.{Cjson, int32_type, bits, json_parse}
use pio_esp_mdf_example.Mlink.Device.{Device, get_format}
use pio_esp_mdf_example.Mlink.Status.{format_int}
use pio_esp_mdf_example.Mlink.Requests.{Call, set_int, set_as, set_all}

-- An object with an identifier of an integer, and a value for it
abbrev pub Pair : Cjson → Device → List ℕ → ℕ × ℕ → Type 0
Pair cjson d raw (cid, value) =
    (json_parse cjson (some raw) cid_key int32_type ≡ (mdf_ok, bits 32 cid))
    × (json_parse cjson (some raw) value_key int32_type ≡ (mdf_ok, bits 32 value))
    × (get_format d cid ≡ some format_int)

abbrev pub Pairs : Cjson → Device → List (List ℕ) → List (ℕ × ℕ) → Type 0
Pairs cjson d [] [] = Unit
Pairs cjson d [] (p ∷ ps) = ⊥
Pairs cjson d (raw ∷ raws) [] = ⊥
Pairs cjson d (raw ∷ raws) (p ∷ ps) = Pair cjson d raw p × Pairs cjson d raws ps

abbrev pub present : List (List ℕ) → List (Option (List ℕ))
present [] = []
present (raw ∷ raws) = some raw ∷ present raws

abbrev pub calls_of : List (ℕ × ℕ) → List Call
calls_of [] = []
calls_of ((cid, value) ∷ ps) = set_int (cid % 2 ^ 16) value ∷ calls_of ps

-- For objects that each hold the identifier of an integer and a value, the loop of
-- mlink_handle_set_status sets each value once, in the order of the request.
set_all_sets :
    (cjson : Cjson) (d : Device) (raws : List (List ℕ)) (ps : List (ℕ × ℕ))
    → Pairs cjson d raws ps
    → set_all cjson d (present raws) ≡ some (calls_of ps)
unfolding set_all set_as
set_all_sets cjson d [] [] h = refl
set_all_sets cjson d [] (p ∷ ps) h = elim h [ ]
set_all_sets cjson d (raw ∷ raws) [] h = elim h [ ]
set_all_sets cjson d (raw ∷ raws) ((cid, value) ∷ ps) ((c, v, f), h) =
    rw (c, f, v, set_all_sets cjson d raws ps h) refl
