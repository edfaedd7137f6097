-- ===== src/Mwifi/Receive.antt =====
-- The loop of __mwifi_root_read of esp-mdf/components/mwifi/mwifi.c that puts the packets of a message
-- together.
pub mod RoundTrip
pub mod Loss
use pio_esp_mdf_example.Prelude.{
  ℕ, suc, ◌+◌, Bool, true, false, not, ◌||◌, List, [], ◌∷◌, ◌++◌, Option, none, some, length, ltb,
  ◌==◌, if◌then◌else◌,
}
use pio_esp_mdf_example.Mcommon.Err.{Err, mdf_ok}
use pio_esp_mdf_example.Mwifi.Packet.{Head, Packet, total_size, payload_len}

-- What a call of esp_mesh_recv_toDS or esp_mesh_recv answers. Of a packet, the payload is what the
-- library writes to the buffer that it is given, and its length what it leaves in `size`.
pub data Answer : Type 0 where
  not_start : Answer
  failed : Err → Answer
  received : Packet → Answer

-- The variables of the loop: the bytes of the buffer before `recv_size`, the size of the buffer, and
-- the rest by their names.
pub record Reading : Type 0 where
  pub bytes : List ℕ
  pub capacity : ℕ
  pub total : ℕ
  pub expect_seq : ℕ
  pub head : Head

-- What an answer does: the loop goes on, ends with a result, or writes outside of the buffer.
pub data Turn : Type 0 where
  go_on : Reading → Turn
  stop : Err → Turn
  overrun : Turn

-- The length of the list is `recv_size`, and `expect_seq` counts up in the head of the loop.
unfoldable pub read_turn : Reading → Answer → Turn
read_turn r not_start = go_on (record r { expect_seq = r.expect_seq + 1 })
read_turn r (failed e) = stop e
read_turn r (received p) =
    let seq = p.head.packet_seq in
    let total = total_size p.head in
    if length p.payload == 0
    then stop mdf_ok
    else if ltb r.capacity (length r.bytes + length p.payload)
    then overrun
    else if seq == r.expect_seq
    then go_on (record {
      bytes = r.bytes ++ p.payload;
      capacity = total;
      total = total;
      expect_seq = r.expect_seq + 1;
      head = p.head;
    })
    else if not (seq == 0)
    then go_on (record r { bytes = []; expect_seq = 0; head = p.head })
    else go_on (record {
      bytes = p.payload;
      capacity = total;
      total = total;
      expect_seq = 0;
      head = p.head;
    })

-- The condition of the loop.
abbrev pub more : Reading → Bool
more r = r.expect_seq == 0 || ltb (length r.bytes) r.total

pub data Outcome : Type 0 where
  complete : Reading → List Answer → Outcome
  ended : Err → List Answer → Outcome
  faulted : Outcome
  waiting : Reading → Outcome

-- The loop, on the answers that come; `waiting` is what it holds when it has used them all.
unfoldable pub read_all : Reading → List Answer → Outcome
read_all r [] = if more r then waiting r else complete r []
read_all r (a ∷ answers) =
    let next = λ (r' : Reading). read_all r' answers in
    if not (more r)
    then complete r (a ∷ answers)
    else elim (read_turn r a) [ go_on r' ↦ next r' | stop e ↦ ended e answers | overrun ↦ faulted ]
