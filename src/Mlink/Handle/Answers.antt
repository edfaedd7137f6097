-- ===== src/Mlink/Handle/Answers.antt =====
-- What the sender of a request is answered.
use mathlib.Core.Path.{subst}
use pio_esp_mdf_example.Prelude.{
  ℕ, ◌-◌, ◌%◌, ◌^◌, ◌<◌, ◌≡◌, refl, sym, Bool-cases, inl, inr, List, [], ◌∷◌, Option, none, some,
  Bool, true, false, ◌==◌, lt→ltb, if◌then◌else◌, arith, length, replicate,
}
use pio_esp_mdf_example.Mcommon.Err.{Err, mdf_ok, mdf_err_not_supported}
use pio_esp_mdf_example.Mlink.Json.{
  JsonApi, integer, string, missing, pointer, array, Outcome, fault, returned, json_pack, brace,
}
use pio_esp_mdf_example.Mlink.Json.Bytes.{IsNonZero, IsText}
use pio_esp_mdf_example.Mlink.Json.Members.{IsHeap}
use pio_esp_mdf_example.Mlink.Json.Render.{pack_all, render, Built, pack_all_renders}
use pio_esp_mdf_example.Mlink.Keys.{request_key, status_msg_key, status_code_key}
use pio_esp_mdf_example.Mlink.Parse.{Cjson, string_type, Written, characters, json_parse, text_in}
use pio_esp_mdf_example.Mlink.Handle.{
  Table, Run, HttpdType, format_json, Answer, Handled, crashed, answered, with_code, with_status,
  send_printed, answer, first_data, handled, handle, is_json,
}
use pio_esp_mdf_example.Mlink.Handle.Table.{find, free}
use pio_esp_mdf_example.Mlink.Handle.Dispatch.{run_first_calls}

with_code-pack_all :
    (api : JsonApi) (ret : Err) (o : Outcome)
    → with_code api ret o
      ≡ pack_all api o ((status_code_key, integer ((2 ^ 32 - ret) % 2 ^ 32)) ∷ [])
unfolding with_code
with_code-pack_all api ret fault = refl
with_code-pack_all api ret (returned size target) = refl

-- An answer was sent, with the text of the status as its body.
abbrev pub Answered : {S : Type 0} → Handled S → Option ℕ → Bool → S → List ℕ → Type 0
Answered crashed dest resp s text = ⊥
Answered (answered ret none s') dest resp s text = ⊥
Answered (answered ret (some a) s') dest resp s text =
    (a.dest_addr ≡ dest)
    × (a.resp ≡ resp)
    × (s' ≡ s)
    × (a.size ≡ length text)
    × ((memory : List ℕ) × (a.body ≡ some memory) × IsText memory text)

-- Nothing was sent, and the result is MDF_OK.
abbrev pub IsSilent : {S : Type 0} → Handled S → S → Type 0
IsSilent crashed s = ⊥
IsSilent (answered ret (some a) s') s = ⊥
IsSilent (answered ret none s') s = (ret ≡ mdf_ok) × (s' ≡ s)

-- An answer with the flag for errors was sent if one is asked for, and nothing if not.
abbrev pub AnsweredIf : {S : Type 0} → Bool → Handled S → Option ℕ → S → List ℕ → Type 0
AnsweredIf false h dest s text = IsSilent h s
AnsweredIf true h dest s text = Answered h dest false s text

-- The status of an error, as an object
abbrev pub status_text : JsonApi → (Err → List ℕ) → Err → List ℕ
status_text api err_to_name ret =
    render api brace (status_msg_key, string (some (err_to_name ret)))
      ((status_code_key, integer ((2 ^ 32 - ret) % 2 ^ 32)) ∷ [])

send_printed-Answered :
    {S : Type 0}
    → (mwifi_write : Answer → Err) (a : Answer) (s : S) (o : Outcome) (text : List ℕ) → Built o text
    → Answered (send_printed mwifi_write a s o) a.dest_addr a.resp s text
unfolding send_printed
send_printed-Answered mwifi_write a s fault text h = elim h [ ]
send_printed-Answered mwifi_write a s (returned n missing) text h = elim h [ ]
send_printed-Answered mwifi_write a s (returned n (pointer none)) text h = elim h [ ]
send_printed-Answered mwifi_write a s (returned n (pointer (some memory))) text (size, held) =
    (refl, refl, refl, size, (memory, refl, held))
send_printed-Answered mwifi_write a s (returned n (array memory)) text h = elim h [ ]

module _ (api : JsonApi) (err_to_name : Err → List ℕ) (heap : IsHeap api)
    (plain : (n : ℕ) → IsNonZero (api.decimal n))
    (there : (n : ℕ) → api.calloc n ≡ some (replicate n 0))
    (texts : (e : Err) → IsNonZero (err_to_name e)) where
  with_status-Built :
      (ret : Err) → Built (with_status api err_to_name ret none) (status_text api err_to_name ret)
  unfolding with_status
  with_status-Built ret =
      rw
        (with_code-pack_all api ret
          (json_pack api (pointer none) (some status_msg_key) (string (some (err_to_name ret)))))
        (pack_all_renders api heap plain there brace 0
          (status_msg_key, string (some (err_to_name ret)))
          ((status_code_key, integer ((2 ^ 32 - ret) % 2 ^ 32)) ∷ [])
          ((refl, omega arith, texts ret), ((refl, omega arith, tt), tt)))

  answer-Answered :
      {S : Type 0}
      → (mwifi_write : Answer → Err) (dest_addr : Option ℕ) (type : HttpdType) (ret : Err)
        (req : List ℕ) (s : S)
      → Answered
          (answer api err_to_name mwifi_write dest_addr type ret (first_data req) s)
          dest_addr
          (ret == mdf_ok)
          s
          (status_text api err_to_name ret)
  unfolding answer
  answer-Answered mwifi_write dest_addr type ret req s =
      send_printed-Answered mwifi_write
        (record {
          dest_addr = dest_addr;
          sockfd = type.sockfd;
          format = format_json;
          resp = ret == mdf_ok;
          body = none;
          size = 0;
        })
        s (with_status api err_to_name ret none) (status_text api err_to_name ret)
        (with_status-Built ret)

  -- Where memory is there, a request that holds no name of a handler, so that mlink_json_parse fails,
  -- is answered to the null address, which is the server, whoever sent it and also when no answer
  -- is asked for: with the error and its name in the body, as one object, and its length. No handler
  -- is called.
  handle_unreadable-Answered :
      {F S : Type 0}
      → (run : Run F S) (cjson : Cjson) (mwifi_write : Answer → Err) (t : Table F) (src_addr : ℕ)
        (type : HttpdType) (req : List ℕ) (s : S) (ret : Err) (written : Written)
      → is_json type.format ≡ true
      → json_parse cjson (some req) request_key string_type ≡ (ret, written)
      → (ret == mdf_ok) ≡ false
      → Answered
          (handle run cjson api err_to_name mwifi_write t src_addr type req s)
          none
          false
          s
          (status_text api err_to_name ret)
  unfolding handle
  handle_unreadable-Answered run cjson mwifi_write t src_addr type req s ret written json e failed =
      rw (json, e, failed)
        (subst
          (λ b.
            Answered (answer api err_to_name mwifi_write none type ret (first_data req) s) none b s
              (status_text api err_to_name ret))
          failed (answer-Answered mwifi_write none type ret req s))

  module _ {F S : Type 0} (run : Run F S) (cjson : Cjson) (mwifi_write : Answer → Err) (t : Table F)
      (src_addr : ℕ) (type : HttpdType) (req : List ℕ) (s : S) (name : List ℕ) where
    abbrev outcome : Handled S
    outcome = handle run cjson api err_to_name mwifi_write t src_addr type req s

    unknown_asked :
        is_json type.format ≡ true
        → type.resp ≡ true
        → json_parse cjson (some req) request_key string_type ≡ (mdf_ok, characters name)
        → length name < 32
        → 0 < free t
        → find t name ≡ none
        → Answered outcome
            (if type.from_server then none else some src_addr)
            false
            s
            (status_text api err_to_name mdf_err_not_supported)
    unfolding handle handled text_in
    unknown_asked json resp e short room absent =
        rw
          (
            json,
            e,
            lt→ltb (length name) 32 short,
            run_first_calls run t name s (first_data req) room,
            absent,
            resp,
          )
          (answer-Answered mwifi_write (if type.from_server then none else some src_addr)
            (record type { resp = true }) mdf_err_not_supported req s)

    unknown_not_asked :
        is_json type.format ≡ true
        → type.resp ≡ false
        → json_parse cjson (some req) request_key string_type ≡ (mdf_ok, characters name)
        → length name < 32
        → 0 < free t
        → find t name ≡ none
        → IsSilent outcome s
    unfolding handle handled text_in
    unknown_not_asked json resp e short room absent =
        rw
          (
            json,
            e,
            lt→ltb (length name) 32 short,
            run_first_calls run t name s (first_data req) room,
            absent,
            resp,
          )
          (refl, refl)

    -- Where memory is there and the table has an unused entry, a request in JSON whose name is shorter
    -- than 32 characters and not in the table changes nothing. If an answer is asked for, then it is
    -- answered to the server, if it came from there, or else to its sender, with one object that has
    -- the name of MDF_ERR_NOT_SUPPORTED and the negated code; if none is asked for, then nothing is
    -- sent and the result is MDF_OK.
    pub handle_unknown-Answered :
        is_json type.format ≡ true
        → json_parse cjson (some req) request_key string_type ≡ (mdf_ok, characters name)
        → length name < 32
        → 0 < free t
        → find t name ≡ none
        → AnsweredIf type.resp
            (handle run cjson api err_to_name mwifi_write t src_addr type req s)
            (if type.from_server then none else some src_addr)
            s
            (status_text api err_to_name mdf_err_not_supported)
    handle_unknown-Answered json e short room absent =
        let text = status_text api err_to_name mdf_err_not_supported in
        let dest = if type.from_server then none else some src_addr in
        elim (Bool-cases type.resp) [
          | inl asked ↦
              subst (λ b. AnsweredIf b outcome dest s text) (sym asked)
                (unknown_asked json asked e short room absent)
          | inr not_asked ↦
              subst (λ b. AnsweredIf b outcome dest s text) (sym not_asked)
                (unknown_not_asked json not_asked e short room absent)
        ]
