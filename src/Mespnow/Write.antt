-- ===== src/Mespnow/Write.antt =====
-- mespnow_write of esp-mdf/components/mespnow/mespnow.c.
pub mod Follow
pub mod Bounds
use pio_esp_mdf_example.Prelude.{
  ℕ, zero, suc, ◌+◌, ◌%◌, min, Bool, not, List, [], ◌∷◌, ◌++◌, Option, none, some, length, take,
  drop, leb, ◌==◌, if◌then◌else◌,
}
use pio_esp_mdf_example.Mcommon.Err.{
  Err, mdf_ok, mdf_fail, mdf_err_no_mem, mdf_err_invalid_arg, mdf_err_timeout,
}
use pio_esp_mdf_example.Mespnow.Frame.{Frame, encode}
use pio_esp_mdf_example.Mespnow.State.{
  Mespnow, Event, mespnow_send, announced, trans_pipe_max, payload_len, uint8_max, oui_n, oui_o,
}

-- What the calls of the system answer. The first index counts the calls of esp_now_send, and that
-- of `random` the packets. `acked` is whether SEND_CB_OK was set while the call waited for it.
pub record Link : Type 0 where
  pub locked : Bool
  pub memory : Bool
  pub result : ℕ → Err
  pub acked : ℕ → Bool
  pub random : ℕ → ℕ

-- One call of esp_now_send.
pub record Call : Type 0 where
  pub index : ℕ
  pub bytes : List ℕ

-- xSemaphoreTake and xSemaphoreGive of `s_send_lock`.
pub data LockOp : Type 0 where
  take_lock give_lock : LockOp

pub record Written : Type 0 where
  pub ret : Err
  pub calls : List Call
  pub events : List Event
  pub lock : List LockOp

pub record Sent : Type 0 where
  pub ret : Err
  pub next : ℕ
  pub calls : List Call

abbrev pub retransmit_num : ℕ
retransmit_num = 3

-- The inner loop: at most `n` calls from number `k` on.
unfoldable pub transmit : Link → List ℕ → ℕ → ℕ → Sent
transmit link bytes zero k = record { ret = mdf_fail; next = k; calls = [] }
transmit link bytes (suc n) k =
    let call : Call = record { index = k; bytes = bytes } in
    let rest = transmit link bytes n (k + 1) in
    if not (link.result k == mdf_ok)
    then record { ret = link.result k; next = k + 1; calls = call ∷ [] }
    else if link.acked k
    then record { ret = mdf_ok; next = k + 1; calls = call ∷ [] }
    else record rest { calls = call ∷ rest.calls }

-- The packets of one message: pipe, total size, and the checksum.
pub record Message : Type 0 where
  pub pipe : ℕ
  pub total : ℕ

abbrev pub refused : Err → Written
refused e = record { ret = e; calls = []; events = []; lock = [] }

module _ (crc8_le : ℕ → List ℕ → ℕ) where
  -- Packet number `j`, with the sequence number `seq`, of what is left to write.
  unfoldable pub packet : Link → Message → ℕ → ℕ → List ℕ → Frame
  packet link m j seq bytes =
      let size = min (length bytes) payload_len in
      record {
        oui_0 = oui_n;
        oui_1 = oui_o;
        pipe = m.pipe;
        crc = crc8_le uint8_max (take size bytes);
        seq = seq;
        size = size;
        total_size = m.total % 65536;
        magic = link.random j;
        payload = take size bytes;
      }

  -- The outer loop, on fuel; `seq` is a byte.
  unfoldable pub write_loop : Link → Message → ℕ → ℕ → ℕ → ℕ → List ℕ → Sent
  write_loop link m zero k j seq bytes = record { ret = mdf_fail; next = k; calls = [] }
  write_loop link m (suc fuel) k j seq bytes =
      let sent = transmit link (encode (packet link m j seq bytes)) retransmit_num k in
      let rest =
        write_loop link m fuel sent.next (j + 1) ((seq + 1) % 256) (drop payload_len bytes) in
      if not (sent.ret == mdf_ok)
      then sent
      else if leb (length bytes) payload_len
      then sent
      else record rest { calls = sent.calls ++ rest.calls }

  -- A null pointer is `none`, and `size` the length of the list. `not_init` is
  -- ESP_ERR_ESPNOW_NOT_INIT. Every turn of the loop takes 238 bytes, so the fuel is enough.
  unfoldable pub write : Err → Link → Mespnow → ℕ → Option (List ℕ) → Option (List ℕ) → Written
  write not_init link s pipe none bytes = refused mdf_err_invalid_arg
  write not_init link s pipe (some dest) none = refused mdf_err_invalid_arg
  write not_init link s pipe (some dest) (some bytes) =
      let m : Message = record { pipe = pipe; total = length bytes } in
      let sent = write_loop link m (suc (length bytes)) 0 0 0 bytes in
      if length bytes == 0
      then refused mdf_err_invalid_arg
      else if leb trans_pipe_max pipe
      then refused mdf_err_invalid_arg
      else if not s.init_flag
      then refused not_init
      else if not link.locked
      then refused mdf_err_timeout
      else if not link.memory
      then record (refused mdf_err_no_mem) { lock = take_lock ∷ [] }
      else record {
        ret = sent.ret;
        calls = sent.calls;
        events = if sent.ret == mdf_ok then announced pipe (mespnow_send pipe) else [];
        lock = take_lock ∷ give_lock ∷ [];
      }
