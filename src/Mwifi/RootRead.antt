-- ===== src/Mwifi/RootRead.antt =====
-- __mwifi_root_read of esp-mdf/components/mwifi/mwifi.c.
pub mod Whole
use pio_esp_mdf_example.Prelude.{
  ℕ, zero, suc, ◌+◌, ◌*◌, ◌%◌, Bool, true, false, not, ◌&&◌, ◌||◌, List, [], ◌∷◌, Option, none,
  some, length, ltb, ◌==◌, if◌then◌else◌,
}
use pio_esp_mdf_example.Mcommon.Err.{Err, mdf_ok, mdf_fail, mdf_err_invalid_arg, mdf_err_buf}
use pio_esp_mdf_example.Mwifi.Err.{err_not_start}
use pio_esp_mdf_example.Mwifi.Packet.{DataType, Head, payload_len}
use pio_esp_mdf_example.Mwifi.Receive.{
  Answer, Reading, Outcome, complete, ended, faulted, waiting, read_all,
}

-- Where the data go: to a buffer of the caller with its size, or to one that the function allocates.
pub data Buffer : Type 0 where
  external : ℕ → Buffer
  internal : Buffer

-- What uncompress of miniz answers for a buffer of a size and compressed bytes.
pub data Inflated : Type 0 where
  inflated : List ℕ → Inflated
  buf_error : Inflated
  other_error : Inflated

-- What a call leaves: the error code, and the type and the bytes that the caller gets.
pub record Message : Type 0 where
  pub ret : Err
  pub data_type : Option DataType
  pub bytes : List ℕ

pub data ReadResult : Type 0 where
  returned : Message → List Answer → ReadResult
  fault : ReadResult
  blocked : ReadResult

abbrev pub answer : Err → Message
answer e = record { ret = e; data_type = none; bytes = [] }

module _ (uncompress : ℕ → List ℕ → Inflated) where
  -- The loop that tries larger buffers; without end if the library always asks for a larger one.
  unfoldable pub inflate : ℕ → DataType → ℕ → List ℕ → Option Message
  inflate zero t rate bytes = none
  inflate (suc fuel) t rate bytes =
      let rate' = if rate == 0 then 5 else rate in
      let rest = inflate fuel t (rate' + 2) bytes in
      elim (uncompress (length bytes * rate') bytes) [
        | inflated out ↦ some (record { ret = mdf_ok; data_type = some t; bytes = out })
        | buf_error ↦ rest
        | other_error ↦ some (record { ret = mdf_fail; data_type = some t; bytes = [] })
      ]

  -- What follows the loop: the bytes go to the caller.
  unfoldable pub hand_over : ℕ → Buffer → DataType → ℕ → List ℕ → Option Message
  hand_over fuel internal t rate bytes =
      if t.compression
      then inflate fuel t rate bytes
      else some (record { ret = mdf_ok; data_type = some t; bytes = bytes })
  hand_over fuel (external size) t rate bytes =
      let code =
        λ (e : Err). let m : Message = record { ret = e; data_type = some t; bytes = [] } in m in
      let whole : Message = record { ret = mdf_ok; data_type = some t; bytes = bytes } in
      let inflated_bytes : Message = elim (uncompress size bytes) [
        | inflated out ↦ record { ret = mdf_ok; data_type = some t; bytes = out }
        | buf_error ↦ code mdf_err_buf
        | other_error ↦ code mdf_fail
      ] in
      if t.compression
      then some inflated_bytes
      else if ltb size (length bytes)
      then some (code mdf_err_buf)
      else some whole

  -- `present` is whether the pointers are not null, and `empty_head` the head that is all 0. The data
  -- are read from the buffer, which is then of the size that the last packet states.
  unfoldable pub root_read : ℕ → Head → Bool → Bool → Buffer → List Answer → ReadResult
  root_read fuel empty_head present started buffer answers =
      let no_room : Bool = elim buffer [ external size ↦ size == 0 | internal ↦ false ] in
      let start : Reading = record {
        bytes = [];
        capacity = payload_len;
        total = 0;
        expect_seq = 0;
        head = empty_head;
      } in
      if not present || no_room
      then returned (answer mdf_err_invalid_arg) answers
      else if not started
      then returned (answer err_not_start) answers
      else elim (read_all start answers) [
        | waiting r ↦ blocked
        | faulted ↦ fault
        | ended e rest ↦ returned (answer e) rest
        | complete r rest ↦
            if ltb r.capacity (length r.bytes)
            then fault
            else elim (hand_over fuel buffer r.head.data_type r.head.compress_rate r.bytes) [
              | none ↦ blocked
              | some m ↦ returned m rest
            ]
      ]
