-- ===== src/Mespnow/Read.antt =====
-- mespnow_read of esp-mdf/components/mespnow/mespnow.c.
pub mod Steps
pub mod Overrun
use pio_esp_mdf_example.Prelude.{
  ℕ, ◌+◌, Bool, true, false, not, ◌&&◌, List, [], ◌∷◌, ◌++◌, Option, none, some, length, take, ltb,
  leb, ◌==◌, if◌then◌else◌,
}
use pio_esp_mdf_example.Mcommon.Err.{Err, mdf_ok, mdf_fail, mdf_err_invalid_arg, mdf_err_timeout}
use pio_esp_mdf_example.Mespnow.Frame.{Frame, decode}
use pio_esp_mdf_example.Mespnow.State.{Mespnow, QueueData, trans_pipe_max}

-- `source` and `bytes` are what stands in the caller's buffers, `size` is `*size` afterwards, and
-- `left` what the queue has not handed out.
pub record Result : Type 0 where
  pub ret : Err
  pub source : List ℕ
  pub bytes : List ℕ
  pub size : ℕ
  pub left : List QueueData

abbrev pub failed : Err → ℕ → List QueueData → Result
failed e size left = record { ret = e; source = []; bytes = []; size = size; left = left }

-- The callback has stored no bytes that are too short for a header.
-- The second loop: the packets after the first, in their order. The list is what successive
-- calls of xQueueReceive hand out; where it ends the call times out.
unfoldable pub read_rest : ℕ → List ℕ → ℕ → ℕ → List ℕ → List QueueData → Result
read_rest size source total expect_seq bytes [] =
    let r : Result = record {
      ret = mdf_err_timeout;
      source = source;
      bytes = bytes;
      size = size;
      left = [];
    } in
    if ltb (length bytes) total then r else record r { ret = mdf_ok; size = length bytes }
read_rest size source total expect_seq bytes (q ∷ queue) =
    let next = λ (f : Frame).
      read_rest size source total (expect_seq + 1) (bytes ++ take f.size f.payload) queue in
    let lost : Result = record {
      ret = mdf_fail;
      source = source;
      bytes = bytes;
      size = size;
      left = queue;
    } in
    if ltb (length bytes) total
    then elim (decode q.bytes) [
      | none ↦ lost
      | some f ↦ elim (f.seq == expect_seq) [ true ↦ next f | false ↦ lost ]
    ]
    else record {
      ret = mdf_ok;
      source = source;
      bytes = bytes;
      size = length bytes;
      left = q ∷ queue;
    }

-- The first loop: what is no first packet, or announces a message that does not fit, is discarded.
unfoldable pub read_first : ℕ → List QueueData → Result
read_first size [] = failed mdf_err_timeout size []
read_first size (q ∷ queue) =
    let skip = read_first size queue in
    elim (decode q.bytes) [
      | none ↦ skip
      | some f ↦
          let found = read_rest size q.addr f.total_size 1 (take f.size f.payload) queue in
          if f.seq == 0 && ltb f.total_size size then found else skip
    ]

-- The null pointers are `false`.
unfoldable pub read : Err → Mespnow → ℕ → Bool → Bool → Option ℕ → List QueueData → Result
read not_init s pipe src_addr buffer none queue = failed mdf_err_invalid_arg 0 queue
read not_init s pipe src_addr buffer (some size) queue =
    let found = read_first size queue in
    if not (src_addr && buffer)
    then failed mdf_err_invalid_arg size queue
    else if size == 0
    then failed mdf_err_invalid_arg size queue
    else if leb trans_pipe_max pipe
    then failed mdf_err_invalid_arg size queue
    else if not s.init_flag
    then failed not_init size queue
    else found
