-- ===== src/Mwifi/Receive/Loss.antt =====
-- What the loop of __mwifi_root_read does after packets were lost.
use mathlib.Core.Path.{subst}
use pio_esp_mdf_example.Prelude.{
  ℕ, ◌+◌, ◌<◌, ◌≤◌, ◌≡◌, ◌≢◌, refl, sym, ap, ◌∙◌, true, false, List, [], ◌∷◌, ◌++◌, map, length,
  arith,
}
use pio_esp_mdf_example.Mcommon.Err.{mdf_ok}
use pio_esp_mdf_example.Mwifi.Err.{MeshErr}
use pio_esp_mdf_example.Mwifi.Packet.{Head, Packet, payload_len, total_size}
use pio_esp_mdf_example.Mwifi.Fragment.{Link, subcontract_write}
use pio_esp_mdf_example.Mwifi.Receive.{
  Answer, received, Reading, read_turn, more, faulted, read_all,
}
use pio_esp_mdf_example.Mwifi.Receive.RoundTrip.{Completes, read-subcontract_write}

-- Packets that are not the first of a message.
abbrev pub AllLater : List Packet → Type 0
AllLater [] = Unit {0}
AllLater (p ∷ ps) =
    (p.head.packet_seq ≢ 0)
    × (0 < length p.payload)
    × (length p.payload ≤ payload_len)
    × AllLater ps

-- The reader waits for the first packet of a message.
abbrev pub IsIdle : Reading → Type 0
IsIdle r = (r.bytes ≡ []) × (r.expect_seq ≡ 0) × (payload_len ≤ r.capacity)

read_all_drops :
    (r : Reading) (p : Packet) (rest : List Answer)
    → more r ≡ true
    → p.head.packet_seq ≢ 0
    → p.head.packet_seq ≢ r.expect_seq
    → 0 < length p.payload
    → length r.bytes + length p.payload ≤ r.capacity
    → read_all r (received p ∷ rest)
      ≡ read_all (record r { bytes = []; expect_seq = 0; head = p.head }) rest
unfolding read_all read_turn
read_all_drops r p rest m later other some_bytes fits = ground arith

IsIdle-drops :
    (r : Reading) (lost : List Packet) (rest : List Answer)
    → IsIdle r
    → AllLater lost
    → (r' : Reading) × IsIdle r' × (read_all r (map received lost ++ rest) ≡ read_all r' rest)
IsIdle-drops r [] rest idle later = (r, idle, refl)
IsIdle-drops r (p ∷ lost) rest idle (seq, some_bytes, small, later) =
    let r1 = record r { bytes = []; expect_seq = 0; head = p.head } in
    let none_read = ap length idle.0 in
    let step =
      read_all_drops r p (map received lost ++ rest) (ground (arith, idle.1)) seq
        (λ e. seq (e ∙ idle.1)) some_bytes (omega (arith, none_read, idle.2, small)) in
    let (r', idle', same) = IsIdle-drops r1 lost rest (refl, refl, idle.2) later in
    (r', idle', step ∙ same)

module _ (codes : MeshErr) (link : Link) (single : link.group ≡ false) where
  -- A reader in the middle of a message gets a packet that is neither the next nor the first of
  -- a message, and then any packets that are not the first of a message. The next whole message of 1 to
  -- 8191 bytes then comes through: the loop ends with exactly its bytes.
  pub read_recovers :
      (r : Reading) (p : Packet) (lost : List Packet) (head : Head) (bytes : List ℕ)
      (rest : List Answer)
      → more r ≡ true
      → p.head.packet_seq ≢ 0
      → p.head.packet_seq ≢ r.expect_seq
      → 0 < length p.payload
      → length r.bytes + length p.payload ≤ r.capacity
      → payload_len ≤ r.capacity
      → AllLater lost
      → 0 < length bytes
      → length bytes ≤ 8191
      → (subcontract_write codes link head bytes).ret ≡ mdf_ok
      → Completes (length bytes) head bytes rest (
          read_all r (
            received p
            ∷ (map received lost
                ++ (map received (subcontract_write codes link head bytes).sent ++ rest))))
  read_recovers r p lost head bytes rest m seq other some_bytes fits room later pos small ok =
      let message = map received (subcontract_write codes link head bytes).sent ++ rest in
      let r1 = record r { bytes = []; expect_seq = 0; head = p.head } in
      let dropped = read_all_drops r p (map received lost ++ message) m seq other some_bytes fits in
      let (r', idle, same) = IsIdle-drops r1 lost message (refl, refl, room) later in
      subst (Completes (length bytes) head bytes rest) (sym (dropped ∙ same)) (
        read-subcontract_write codes link single head bytes r' rest pos small idle.0 idle.1 idle.2
          ok)

-- If instead the packet that comes in the middle of a message is a whole message of one packet, then the
-- reader takes it and waits for a first packet again, and writes whatever packet comes next behind the
-- end of the buffer, which has only the size of the message that it holds.
pub restart_overruns :
    (r : Reading) (p q : Packet) (rest : List Answer)
    → more r ≡ true
    → r.expect_seq ≢ 0
    → p.head.packet_seq ≡ 0
    → total_size p.head ≡ length p.payload
    → 0 < length p.payload
    → length r.bytes + length p.payload ≤ r.capacity
    → 0 < length q.payload
    → read_all r (received p ∷ received q ∷ rest) ≡ faulted
unfolding read_all read_turn
restart_overruns r p q rest m middle first single some_bytes fits next = ground arith
