-- ===== src/Mlink/Handle/Tests.antt =====
-- The theorems on requests at concrete inputs.
use pio_esp_mdf_example.Prelude.{
  ℕ, ◌+◌, ◌≡◌, refl, List, [], ◌∷◌, none, some, true, false, arith, inl, ◌↔◌, ◌≤◌,
}
use pio_esp_mdf_example.Mcommon.Err.{Err, mdf_ok, mdf_fail, mdf_err_not_supported}
use pio_esp_mdf_example.Mlink.Json.Tests.{api, api-IsHeap}
use pio_esp_mdf_example.Mlink.Keys.{request_key}
use pio_esp_mdf_example.Mlink.Parse.{
  Cjson, number_element, text_item, array_item, parse_content, other_type, json_parse, parse_text,
  parse_found, parse_item, string_type, characters,
}
use pio_esp_mdf_example.Mlink.Parse.Slots.{AreInside, array_inside_iff}
use pio_esp_mdf_example.Mlink.Handle.{
  Table, Run, HttpdType, format_json, same_name, run_all, run_first, first_data, handle,
}
use pio_esp_mdf_example.Mlink.Handle.Table.{IsTable}
use pio_esp_mdf_example.Mlink.Handle.Dispatch.{run_all-run_first}
use pio_esp_mdf_example.Mlink.Handle.Answers.{AnsweredIf, status_text, handle_unknown-Answered}

-- A handler is the result that it gives.
abbrev run : Run Err ℕ
run f s d = (f, d, s + 1)

-- "a" and "b"; then "B"
abbrev table : Table Err
table = some (0x61 ∷ [], mdf_ok) ∷ some (0x62 ∷ [], mdf_fail) ∷ none ∷ []

abbrev upper : List ℕ
upper = 0x42 ∷ []

abbrev other_name : List ℕ
other_name = 0x63 ∷ []

table-IsTable : IsTable table
unfolding same_name
table-IsTable = ((refl, tt), (tt, tt))

run_all-run_first_example :
    run_all run table upper mdf_err_not_supported 0 (first_data [])
    ≡ run_first run table upper 0 (first_data [])
run_all-run_first_example =
    run_all-run_first run table upper 0 (first_data []) (omega arith) table-IsTable

-- Every text of JSON holds the name "c" under every key.
abbrev named : Cjson
named text = some (λ key.
    some (record { content = text_item other_name; valueint = 0; valuedouble = 0; valuefloat = 0 }))

abbrev from_device : HttpdType
from_device = record { sockfd = 1; format = format_json; from_server = false; resp = true }

abbrev err_to_name : Err → List ℕ
err_to_name e = 0x65 ∷ []

named_request : json_parse named (some []) request_key string_type ≡ (mdf_ok, characters other_name)
unfolding json_parse parse_text parse_found parse_item parse_content
named_request = refl

handle_unknown-Answered_example :
    AnsweredIf true
      (handle run named api err_to_name (λ a. mdf_ok) table 9 from_device [] 0)
      (some 9)
      0
      (status_text api err_to_name mdf_err_not_supported)
unfolding same_name
handle_unknown-Answered_example =
    handle_unknown-Answered api err_to_name api-IsHeap (λ n. omega arith) (λ n. refl)
      (λ e. omega arith) run named (λ a. mdf_ok) table 9 from_device [] 0 other_name refl
      named_request (omega arith) (omega arith) refl

array_inside_iff_example :
    AreInside 2
      (parse_content other_type 3
        (array_item (number_element 5 ∷ number_element 6 ∷ number_element 7 ∷ []))).1
    ↔ (3 ≤ 2)
array_inside_iff_example =
    array_inside_iff other_type 2 3 (number_element 5 ∷ number_element 6 ∷ number_element 7 ∷ [])
      (inl tt)
