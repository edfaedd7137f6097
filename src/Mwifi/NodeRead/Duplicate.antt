-- ===== src/Mwifi/NodeRead/Duplicate.antt =====
-- What the filter for retransmitted packets in __mwifi_read does.
use pio_esp_mdf_example.Prelude.{
  ℕ, ◌+◌, ◌≤◌, ◌≡◌, ◌≢◌, refl, sym, ap, ◌∙◌, true, List, [], ◌∷◌, map, length, ◌==◌, arith,
  Bool-cases, inl, inr,
}
use pio_esp_mdf_example.Mwifi.Packet.{Packet, payload_len}
use pio_esp_mdf_example.Mwifi.Receive.{Answer, received}
use pio_esp_mdf_example.Mwifi.Receive.Loss.{AllLater}
use pio_esp_mdf_example.Mwifi.NodeRead.{NodeReading, node_turn, node_more, waiting, node_read_all}

-- A packet that is neither the next nor a first one empties the buffer.
node_drops :
    (r : NodeReading) (p : Packet) (rest : List Answer)
    → node_more r ≡ true
    → p.head.packet_seq ≢ 0
    → p.head.packet_seq + 1 ≢ r.expect
    → length r.bytes + length p.payload ≤ r.capacity
    → node_read_all r (received p ∷ rest)
      ≡ node_read_all (record r { bytes = []; expect = 1; head = p.head }) rest
unfolding node_read_all node_turn
node_drops r p rest m later other fits = ground arith

node_restarts :
    (r : NodeReading) (p : Packet) (rest : List Answer)
    → node_more r ≡ true
    → p.head.packet_seq ≡ 0
    → 1 ≢ r.expect
    → p.head.magic ≡ r.magic
    → length r.bytes + length p.payload ≤ r.capacity
    → node_read_all r (received p ∷ rest)
      ≡ node_read_all (record r { bytes = []; expect = 0; head = p.head }) rest
unfolding node_read_all node_turn
node_restarts r p rest m first other same fits = ground arith

abbrev Starves : NodeReading → List Answer → Type 0
Starves r answers = (r' : NodeReading) × (r'.bytes ≡ []) × (node_read_all r answers ≡ waiting r')

idle-Starves :
    (r : NodeReading) (later : List Packet)
    → r.bytes ≡ []
    → r.expect ≤ 1
    → payload_len ≤ r.capacity
    → AllLater later
    → Starves r (map received later)
unfolding node_read_all
idle-Starves r [] empty idle room all_later = (r, empty, ground (arith, ap length empty))
idle-Starves r (p ∷ later) empty idle room (seq, some_bytes, small, all_later) =
    let r1 : NodeReading = record r { bytes = []; expect = 1; head = p.head } in
    let len = ap length empty in
    let step =
      node_drops r p (map received later) (ground (arith, len)) seq
        (λ e. seq (omega (arith, e, idle))) (omega (arith, len, room, small)) in
    let (r', none_left, same) = idle-Starves r1 later refl (omega arith) room all_later in
    (r', none_left, step ∙ same)

-- A packet that comes twice in the middle of a message is not filtered out: __mwifi_read compares the
-- sequence numbers first, takes the copy for a sign of loss and gives up the bytes that it has, and
-- after the rest of the message it still waits, with an empty buffer.
pub duplicate_loses :
    (r : NodeReading) (p : Packet) (later : List Packet)
    → node_more r ≡ true
    → r.expect ≡ p.head.packet_seq + 2
    → r.magic ≡ p.head.magic
    → length r.bytes + length p.payload ≤ r.capacity
    → payload_len ≤ r.capacity
    → AllLater later
    → (r' : NodeReading) × (r'.bytes ≡ [])
      × (node_read_all r (received p ∷ map received later) ≡ waiting r')
duplicate_loses r p later m middle copy fits room all_later =
    let from = λ (n : ℕ) (small : n ≤ 1).
      let r1 : NodeReading = record r { bytes = []; expect = n; head = p.head } in
      idle-Starves r1 later refl small room all_later in
    elim (Bool-cases (p.head.packet_seq == 0)) [
      | inl first ↦
          let step =
            node_restarts r p (map received later) m (ground (arith, first))
              (λ e. absurd (omega (arith, e, middle))) (sym copy) fits in
          let (r', none_left, same) = from 0 (omega arith) in (r', none_left, step ∙ same)
      | inr not_first ↦
          let step =
            node_drops r p (map received later) m (ground (arith, not_first))
              (λ e. absurd (omega (arith, e, middle))) fits in
          let (r', none_left, same) = from 1 (omega arith) in (r', none_left, step ∙ same)
    ]
