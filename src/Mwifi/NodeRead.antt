-- ===== src/Mwifi/NodeRead.antt =====
-- __mwifi_read of esp-mdf/components/mwifi/mwifi.c: a node puts the packets of a message together,
-- forwards the message where its head asks for it, and hands it to the caller.
pub mod Duplicate
use pio_esp_mdf_example.Prelude.{
  ℕ, zero, suc, ◌+◌, ◌-◌, ◌*◌, ◌^◌, Bool, true, false, not, ◌&&◌, ◌||◌, List, [], ◌∷◌, ◌++◌, Option,
  none, some, length, take, drop, ltb, ◌==◌, if◌then◌else◌,
}
use pio_esp_mdf_example.Mcommon.Err.{Err, mdf_ok, mdf_err_invalid_arg}
use pio_esp_mdf_example.Mwifi.Err.{err_not_start}
use pio_esp_mdf_example.Mwifi.Packet.{
  DataType, Head, Packet, payload_len, total_size, communicate_unicast, communicate_multicast,
  communicate_broadcast,
}
use pio_esp_mdf_example.Mwifi.Receive.{Answer, not_start, failed, received}
use pio_esp_mdf_example.Mwifi.RootRead.{
  Buffer, external, internal, Inflated, Message, answer, hand_over,
}
use pio_esp_mdf_example.Mwifi.Transmit.{Addr, addr_broadcast, TransmitApi, Call, transmit_write}

-- The variables of the loop over the packets: the bytes of the buffer before `recv_size`, the size of
-- the buffer, `expect_seq` plus 1, since it may be -1, and `s_data_magic`, which outlives the call.
pub record NodeReading : Type 0 where
  pub bytes : List ℕ
  pub capacity : ℕ
  pub total : ℕ
  pub expect : ℕ
  pub head : Head
  pub magic : ℕ

pub data NodeTurn : Type 0 where
  go_on : NodeReading → NodeTurn
  stop : Err → NodeTurn
  overrun : NodeTurn

-- A packet that is not filtered out: it stands behind the bytes `kept`, and `expect` is the number of
-- the packet that the loop waits for next, plus 1.
abbrev taken : NodeReading → Packet → List ℕ → ℕ → NodeTurn
taken r p kept expect = go_on (record {
  bytes = kept ++ p.payload;
  capacity = total_size p.head;
  total = total_size p.head;
  expect = expect;
  head = p.head;
  magic = p.head.magic;
})

-- A turn of the loop. The number of the packet that is waited for counts up at its end, also where it
-- was set to -1, and from -2 if a first packet out of turn is a duplicate.
unfoldable pub node_turn : NodeReading → Answer → NodeTurn
node_turn r not_start = go_on (record r { expect = r.expect + 1 })
node_turn r (failed e) = stop e
node_turn r (received p) =
    let seq = p.head.packet_seq in
    let duplicate = p.head.magic == r.magic in
    if ltb r.capacity (length r.bytes + length p.payload)
    then overrun
    else if seq + 1 == r.expect
    then if duplicate then go_on (record r { head = p.head }) else taken r p r.bytes (r.expect + 1)
    else if not (seq == 0)
    then go_on (record r { bytes = []; expect = 1; head = p.head })
    else if duplicate
    then go_on (record r { bytes = []; expect = 0; head = p.head })
    else taken r p [] 1

abbrev pub node_more : NodeReading → Bool
node_more r = length r.bytes == 0 || ltb (length r.bytes) r.total

pub data NodeOutcome : Type 0 where
  complete : NodeReading → List Answer → NodeOutcome
  ended : Err → ℕ → List Answer → NodeOutcome
  faulted : NodeOutcome
  waiting : NodeReading → NodeOutcome

unfoldable pub node_read_all : NodeReading → List Answer → NodeOutcome
node_read_all r [] = if node_more r then waiting r else complete r []
node_read_all r (a ∷ answers) =
    let next = λ (r' : NodeReading). node_read_all r' answers in
    if not (node_more r) then complete r (a ∷ answers) else elim (node_turn r a) [
      | go_on r' ↦ next r'
      | stop e ↦ ended e r.magic answers
      | overrun ↦ faulted
    ]

-- The address in 6 bytes, and the first `n` addresses of a message.
abbrev pub addr_of : List ℕ → Addr
addr_of (a ∷ b ∷ c ∷ d ∷ e ∷ f ∷ rest) =
    a * 2 ^ 40 + b * 2 ^ 32 + c * 2 ^ 24 + d * 2 ^ 16 + e * 2 ^ 8 + f
addr_of short = 0

abbrev pub addrs_of : ℕ → List ℕ → List Addr
addrs_of zero bytes = []
addrs_of (suc n) bytes = addr_of bytes ∷ addrs_of n (drop 6 bytes)

-- What happens to a whole message: the calls that forward it, and what is left of it for the caller, if
-- it is for this node. `none` where the message is shorter than its addresses.
pub record Passed : Type 0 where
  pub ret : Err
  pub calls : List Call
  pub own : Option (List ℕ)

-- The group of the message, by its first 6 bytes.
unfoldable pub for_me : (Addr → Bool) → Addr → Head → List ℕ → Option (List ℕ)
for_me is_my_group self_mac head message =
    let t = head.data_type in
    let mine =
      t.communicate == communicate_unicast && is_my_group (addr_of message)
      || t.communicate == communicate_multicast && not (addr_of message == self_mac) in
    if not (t.group && not (t.communicate == communicate_broadcast))
    then if head.transmit_self then some message else none
    else if mine && head.transmit_self
    then some (drop 6 message)
    else none

unfoldable pub pass_on : TransmitApi → (Addr → Bool) → Head → List ℕ → Option Passed
pass_on api is_my_group head bytes =
    let num = head.transmit_num in
    let listed = not head.transmit_all && not (num == 0) in
    let message = if listed then drop (6 * num) bytes else bytes in
    let addrs = if head.transmit_all then addr_broadcast ∷ [] else addrs_of num bytes in
    let (ret, calls) = transmit_write api head addrs message in
    let own = for_me is_my_group api.self_mac head message in
    let grouped =
      head.data_type.group && not (head.data_type.communicate == communicate_broadcast) in
    let forwards = head.transmit_all || listed in
    if listed && ltb (length bytes) (6 * num)
    then none
    else if forwards && not (ret == mdf_ok)
    then some (record { ret = ret; calls = calls; own = none })
    else if grouped && ltb (length message) 6
    then none
    else some (record { ret = mdf_ok; calls = if forwards then calls else []; own = own })

-- What the whole call leaves: the message, the calls that forward, the new `s_data_magic`, and the
-- answers that are not used.
pub data NodeResult : Type 0 where
  returned : Message → List Call → ℕ → List Answer → NodeResult
  fault : NodeResult
  blocked : NodeResult

abbrev with_calls : List Call → NodeResult → NodeResult
with_calls calls (returned m more magic rest) = returned m (calls ++ more) magic rest
with_calls calls fault = fault
with_calls calls blocked = blocked

module _ (uncompress : ℕ → List ℕ → Inflated) (api : ℕ → TransmitApi) (is_my_group : Addr → Bool)
    (inflate_fuel : ℕ) (empty_head : Head) (buffer : Buffer) where
  -- The outer loop, on fuel: a message that is not for this node leaves the call waiting for the next.
  unfoldable pub node_rounds : ℕ → Head → ℕ → List Answer → NodeResult
  node_rounds zero head magic answers = blocked
  node_rounds (suc fuel) head magic answers =
      let start : NodeReading = record {
        bytes = [];
        capacity = payload_len;
        total = 0;
        expect = 1;
        head = head;
        magic = magic;
      } in
      let finish = λ (r : NodeReading) (rest : List Answer) (p : Passed) (message : List ℕ).
        let out : NodeResult =
          elim (hand_over uncompress inflate_fuel buffer r.head.data_type r.head.compress_rate
            message) [ none ↦ blocked | some m ↦ returned m p.calls r.magic rest ] in
        out in
      let again = λ (r : NodeReading) (rest : List Answer). node_rounds fuel r.head r.magic rest in
      elim (node_read_all start answers) [
        | waiting r ↦ blocked
        | faulted ↦ fault
        | ended e magic' rest ↦ returned (answer e) [] magic' rest
        | complete r rest ↦
            if ltb r.capacity (length r.bytes)
            then fault
            else elim (pass_on (api fuel) is_my_group r.head r.bytes) [
              | none ↦ fault
              | some p ↦
                  if not (p.ret == mdf_ok)
                  then returned (answer p.ret) p.calls r.magic rest
                  else elim p.own [
                    | some message ↦ finish r rest p message
                    | none ↦ with_calls p.calls (again r rest)
                  ]
            ]
      ]

  -- The whole function. Every round uses an answer, so the fuel is enough.
  unfoldable pub node_read : Bool → Bool → ℕ → List Answer → NodeResult
  node_read present started magic answers =
      let no_room : Bool = elim buffer [ external size ↦ size == 0 | internal ↦ false ] in
      if not present || no_room
      then returned (answer mdf_err_invalid_arg) [] magic answers
      else if not started
      then returned (answer err_not_start) [] magic answers
      else node_rounds (suc (length answers)) empty_head magic answers
