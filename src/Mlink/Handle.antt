-- ===== src/Mlink/Handle.antt =====
-- The requests and their handlers: mlink_set_handle, mlink_handle and mlink_handle_request of
-- esp-mdf/components/mlink/mlink_handle.c. A handler is a value of some type `F`, and `run` calls
-- it on the state of the rest of the program.
pub mod Table
pub mod Dispatch
pub mod Answers
mod Tests
use pio_esp_mdf_example.Prelude.{
  ℕ, ◌+◌, ◌-◌, ◌%◌, ◌^◌, List, [], ◌∷◌, Option, none, some, Bool, true, false, not, ◌&&◌, leb, ◌==◌,
  if◌then◌else◌, length,
}
use pio_esp_mdf_example.Mcommon.Err.{
  Err, mdf_ok, mdf_fail, mdf_err_invalid_arg, mdf_err_not_supported,
}
use pio_esp_mdf_example.Mlink.Json.{
  JsonApi, Value, integer, string, Target, missing, pointer, array, Outcome, fault, returned,
  json_pack,
}
use pio_esp_mdf_example.Mlink.Keys.{request_key, status_msg_key, status_code_key}
use pio_esp_mdf_example.Mlink.Parse.{Cjson, string_type, Written, json_parse, text_in}

-- mlink_httpd_format_t
pub data Format : Type 0 where
  format_none format_hex format_json format_html : Format

-- mlink_handle_data_t
pub record HandleData : Type 0 where
  pub req_data : List ℕ
  pub req_size : ℕ
  pub req_format : Format
  pub resp_data : Option (List ℕ)
  pub resp_size : ℕ
  pub resp_format : Format

-- The table g_handles_list: the entry of a null name, or a name with its function
abbrev pub Table : Type 0 → Type 0
Table F = List (Option (List ℕ × F))

abbrev pub to_lower : ℕ → ℕ
to_lower c = if leb 0x41 c && leb c 0x5a then c + 0x20 else c

-- `!strcasecmp`
unfoldable pub same_name : List ℕ → List ℕ → Bool
same_name [] [] = true
same_name [] (d ∷ ds) = false
same_name (c ∷ cs) [] = false
same_name (c ∷ cs) (d ∷ ds) = (to_lower c == to_lower d) && same_name cs ds

abbrev pub keep : {F : Type 0} → Option (List ℕ × F) → Option (Table F) → Option (Table F)
keep e none = none
keep e (some t) = some (e ∷ t)

-- The loop of mlink_set_handle, and the entry that it sets; the table is full if there is none.
unfoldable pub place : {F : Type 0} → Table F → List ℕ → F → Option (Table F)
place [] name f = none
place (none ∷ t) name f = some (some (name, f) ∷ t)
place (some (n, g) ∷ t) name f =
    if same_name n name then some (some (n, f) ∷ t) else keep (some (n, g)) (place t name f)

abbrev pub placed : {F : Type 0} → Table F → Option (Table F) → Err × Table F
placed t none = (mdf_fail, t)
placed t (some t') = (mdf_ok, t')

-- mlink_set_handle
unfoldable pub set_handle : {F : Type 0} → Table F → Option (List ℕ) → Option F → Err × Table F
set_handle t (some name) (some f) = placed t (place t name f)
set_handle t none f = (mdf_err_invalid_arg, t)
set_handle t (some name) none = (mdf_err_invalid_arg, t)

-- A call of a handler: what it returns, the data that it changed, and the rest of the state
abbrev pub Run : Type 0 → Type 0 → Type 0
Run F S = F → S → HandleData → Err × HandleData × S

-- The loop of mlink_handle_request, which goes on behind an entry that it calls; `none` is a table
-- that is left at its end.
unfoldable pub run_all :
    {F S : Type 0}
    → Run F S
    → Table F
    → List ℕ
    → Err
    → S
    → HandleData
    → Option (Err × HandleData × S)
run_all run [] name ret s d = none
run_all run (none ∷ t) name ret s d = some (ret, d, s)
run_all run (some (n, f) ∷ t) name ret s d =
    let (ret', d', s') = run f s d in
    let matched = run_all run t name ret' s' d' in
    let unmatched = run_all run t name ret s d in if same_name name n then matched else unmatched

-- The loop of mlink_handle, which stops behind an entry that it calls
unfoldable pub run_first :
    {F S : Type 0} → Run F S → Table F → List ℕ → S → HandleData → Option (Err × HandleData × S)
run_first run [] name s d = none
run_first run (none ∷ t) name s d = some (mdf_err_not_supported, d, s)
run_first run (some (n, f) ∷ t) name s d =
    let rest = run_first run t name s d in if same_name name n then some (run f s d) else rest

-- mlink_handle_request; `none` is a name that does not fit `func_name`, or a table without an end.
unfoldable pub handle_request :
    {F S : Type 0} → Run F S → Cjson → Table F → S → HandleData → Option (Err × HandleData × S)
handle_request run cjson t s d =
    let (ret, written) = json_parse cjson (some d.req_data) request_key string_type in
    if not (ret == mdf_ok) then some (ret, d, s) else elim (text_in 32 written) [
      | none ↦ none
      | some name ↦ run_all run t name mdf_err_not_supported s d
    ]

-- mlink_httpd_type_t: the parts that a request has and an answer keeps
pub record HttpdType : Type 0 where
  pub sockfd : ℕ
  pub format : Format
  pub from_server : Bool
  pub resp : Bool

-- The answer that mwifi_write is given; the address `none` is a null pointer.
pub record Answer : Type 0 where
  pub dest_addr : Option ℕ
  pub sockfd : ℕ
  pub format : Format
  pub resp : Bool
  pub body : Option (List ℕ)
  pub size : ℕ

-- What a request ends in: a fault, or a result, the answer if one is sent, and the state
pub data Handled (S : Type 0) : Type 0 where
  crashed : Handled S
  answered : Err → Option Answer → S → Handled S

unfoldable pub with_code : JsonApi → Err → Outcome → Outcome
with_code api ret fault = fault
with_code api ret (returned size target) =
    json_pack api target (some status_code_key) (integer ((2 ^ 32 - ret) % 2 ^ 32))

abbrev pub is_json : Format → Bool
is_json format_json = true
is_json other = false

-- The status that is added to an answer of JSON
unfoldable pub with_status : JsonApi → (Err → List ℕ) → Err → Option (List ℕ) → Outcome
with_status api err_to_name ret resp_data =
    with_code api ret
      (json_pack api (pointer resp_data) (some status_msg_key) (string (some (err_to_name ret))))

-- The answer is sent, with the text and the size that printing gave.
unfoldable pub send_printed : {S : Type 0} → (Answer → Err) → Answer → S → Outcome → Handled S
send_printed mwifi_write a s (returned size (pointer memory)) =
    let a' : Answer = record a { body = memory; size = size } in
    answered (mwifi_write a') (some a') s
send_printed mwifi_write a s other = crashed

-- The code behind EXIT: `mwifi_write` gives the result.
unfoldable pub answer :
    {S : Type 0}
    → JsonApi
    → (Err → List ℕ)
    → (Answer → Err)
    → Option ℕ
    → HttpdType
    → Err
    → HandleData
    → S
    → Handled S
answer api err_to_name mwifi_write dest_addr type ret d s =
    let a : Answer = record {
      dest_addr = dest_addr;
      sockfd = type.sockfd;
      format = d.resp_format;
      resp = ret == mdf_ok;
      body = d.resp_data;
      size = d.resp_size;
    } in
    if is_json d.resp_format
    then send_printed mwifi_write a s (with_status api err_to_name ret d.resp_data)
    else answered (mwifi_write a) (some a) s

abbrev pub first_data : List ℕ → HandleData
first_data req = record {
  req_data = req;
  req_size = length req;
  req_format = format_json;
  resp_data = none;
  resp_size = 0;
  resp_format = format_json;
}

-- From the call of the handler on; `none` is a table that was left at its end.
unfoldable pub handled :
    {S : Type 0}
    → JsonApi
    → (Err → List ℕ)
    → (Answer → Err)
    → ℕ
    → HttpdType
    → Option (Err × HandleData × S)
    → Handled S
handled api err_to_name mwifi_write src_addr type none = crashed
handled api err_to_name mwifi_write src_addr type (some (ret, d, s)) =
    if not type.resp
    then answered mdf_ok none s
    else answer api err_to_name mwifi_write (if type.from_server then none else some src_addr) type
        ret d s

-- mlink_handle with its arguments checked. An answer to the server goes to the null address.
unfoldable pub handle :
    {F S : Type 0}
    → Run F S
    → Cjson
    → JsonApi
    → (Err → List ℕ)
    → (Answer → Err)
    → Table F
    → ℕ
    → HttpdType
    → List ℕ
    → S
    → Handled S
handle run cjson api err_to_name mwifi_write t src_addr type req s =
    let d = first_data req in
    let (ret, written) = json_parse cjson (some req) request_key string_type in
    if not (is_json type.format)
    then answer api err_to_name mwifi_write none type mdf_fail d s
    else if not (ret == mdf_ok)
    then answer api err_to_name mwifi_write none type ret d s
    else elim (text_in 32 written) [
      | none ↦ crashed
      | some name ↦ handled api err_to_name mwifi_write src_addr type (run_first run t name s d)
    ]
