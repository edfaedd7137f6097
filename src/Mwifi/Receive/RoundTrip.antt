-- ===== src/Mwifi/Receive/RoundTrip.antt =====
-- What mwifi_subcontract_write sends, the loop of __mwifi_root_read puts together.
use mathlib.Core.Path.{subst}
use mathlib.Core.List.{append_assoc}
use pio_esp_mdf_example.Prelude.{
  ℕ, zero, suc, ◌+◌, ◌*◌, ◌%◌, ◌<◌, ◌≤◌, ◌≡◌, refl, sym, ap, ◌∙◌, min, true, false, List, [], ◌∷◌,
  ◌++◌, map, length, take, drop, ltb, arith, Bool-cases, inl, inr, ◌⊎◌, length-append, length-take,
  length-drop, take-append-drop, take_all, ltb→lt,
}
use pio_esp_mdf_example.Mcommon.Err.{mdf_ok}
use pio_esp_mdf_example.Mwifi.Err.{MeshErr}
use pio_esp_mdf_example.Mwifi.Packet.{Head, Packet, payload_len, total_size, with_total_size}
use pio_esp_mdf_example.Mwifi.Fragment.{
  Link, fragment, try_send, write_fragments, subcontract_write,
}
use pio_esp_mdf_example.Mwifi.Receive.{
  Answer, received, Reading, read_turn, more, Outcome, complete, read_all,
}

pub read_all_done :
    (r : Reading) (rest : List Answer) → more r ≡ false → read_all r rest ≡ complete r rest
unfolding read_all
read_all_done r [] h = ground arith
read_all_done r (a ∷ rest) h = ground arith

-- A turn that accepts the packet.
read_all_accepts :
    (r : Reading) (p : Packet) (rest : List Answer)
    → more r ≡ true
    → p.head.packet_seq ≡ r.expect_seq
    → 0 < length p.payload
    → length r.bytes + length p.payload ≤ r.capacity
    → read_all r (received p ∷ rest)
      ≡ read_all
          (record {
            bytes = r.bytes ++ p.payload;
            capacity = total_size p.head;
            total = total_size p.head;
            expect_seq = r.expect_seq + 1;
            head = p.head;
          })
          rest
unfolding read_all read_turn
read_all_accepts r p rest m s some_bytes fits = ground arith

-- The result of the loop: a whole message, with what the caller is told of it.
abbrev pub Completes : ℕ → Head → List ℕ → List Answer → Outcome → Type 0
Completes total head bytes rest out =
    (r : Reading) × (out ≡ complete r rest)
    × (r.bytes ≡ bytes)
    × (r.capacity ≡ total)
    × (r.head.data_type ≡ head.data_type)
    × (r.head.compress_rate ≡ head.compress_rate)

ltb-false : (a b : ℕ) → ltb a b ≡ false → b ≤ a
ltb-false a b h = ground arith

more_done : (r : Reading) → 0 < r.expect_seq → r.total ≤ length r.bytes → more r ≡ false
more_done r h k = ground arith

length-eq-zero : (bytes : List ℕ) → length bytes ≡ 0 → bytes ≡ []
length-eq-zero [] h = refl
length-eq-zero (x ∷ xs) h = absurd (omega (arith, h))

module _ (codes : MeshErr) (link : Link) (single : link.group ≡ false) where
  sent_empty :
      (head : Head) (fuel k j seq : ℕ) → (write_fragments codes link head fuel k j seq []).sent ≡ []
  unfolding write_fragments
  sent_empty head zero k j seq = refl
  sent_empty head (suc fuel) k j seq = ground arith

  -- A turn of the sender that succeeds in the end.
  write_fragments_step :
      (head : Head) (fuel k j seq : ℕ) (bytes : List ℕ)
      → 0 < length bytes
      → (write_fragments codes link head (suc fuel) k j seq bytes).ret ≡ mdf_ok
      → (k' : ℕ) × ((write_fragments codes link head (suc fuel) k j seq bytes).sent
          ≡ fragment codes link head j seq bytes
            ∷ (write_fragments codes link head fuel k'
                (j + 1)
                ((seq + 1) % 8)
                (drop payload_len bytes)).sent)
        × ((write_fragments codes link head fuel k'
              (j + 1)
              ((seq + 1) % 8)
              (drop payload_len bytes)).ret
            ≡ mdf_ok)
  unfolding write_fragments
  write_fragments_step head fuel k j seq bytes pos ok =
      ((try_send codes link 2 k).1, ground (arith, single), ground (arith, single))

  -- The reader holds the bytes of the packets before, and waits for the packet that comes next.
  abbrev IsReady : ℕ → ℕ → List ℕ → Reading → Type 0
  IsReady total seq bytes r =
      (r.expect_seq ≡ seq)
      × (length r.bytes ≡ seq * payload_len)
      × (length r.bytes + length bytes ≡ total)
      × (length r.bytes + min payload_len (length bytes) ≤ r.capacity)
      × ((seq ≡ 0) ⊎ (r.total ≡ total))

  abbrev after_packet : Head → ℕ → ℕ → Reading → List ℕ → Reading
  after_packet head j seq r bytes = record {
    bytes = r.bytes ++ take payload_len bytes;
    capacity = total_size head;
    total = total_size head;
    expect_seq = r.expect_seq + 1;
    head = (fragment codes link head j seq bytes).head;
  }

  after_packet-IsReady :
      (head : Head) (j seq : ℕ) (r : Reading) (bytes : List ℕ)
      → payload_len < length bytes
      → IsReady (total_size head) seq bytes r
      → IsReady
          (total_size head)
          (seq + 1)
          (drop payload_len bytes)
          (after_packet head j seq r bytes)
  after_packet-IsReady head j seq r bytes long ready =
      let len = length-append r.bytes (take payload_len bytes) in
      let piece = length-take payload_len bytes in
      let left = length-drop payload_len bytes in
      (
        omega (arith, ready.0),
        omega (arith, ready.1, len, piece),
        omega (arith, ready.1, ready.2, len, piece, left),
        omega (arith, ready.1, ready.2, len, piece, left),
        inr refl,
      )

  read_first :
      (head : Head) (j seq : ℕ) (r : Reading) (bytes : List ℕ) (rest : List Answer)
      → 0 < length bytes
      → IsReady (total_size head) seq bytes r
      → read_all r (received (fragment codes link head j seq bytes) ∷ rest)
        ≡ read_all (after_packet head j seq r bytes) rest
  read_first head j seq r bytes rest pos ready =
      let piece = length-take payload_len bytes in
      let going : more r ≡ true = ground (arith, ready.0, ready.2, ready.4) in
      read_all_accepts r (fragment codes link head j seq bytes) rest going (sym ready.0)
        (omega (arith, piece)) (omega (arith, piece, ready.3))

  read-write_fragments :
      (head : Head) (fuel k j seq : ℕ) (bytes : List ℕ) (r : Reading) (rest : List Answer)
      → total_size head ≤ 8191
      → 0 < length bytes
      → length bytes ≤ fuel
      → (write_fragments codes link head fuel k j seq bytes).ret ≡ mdf_ok
      → IsReady (total_size head) seq bytes r
      → Completes (total_size head) head (r.bytes ++ bytes) rest (
          read_all r
            (map received (write_fragments codes link head fuel k j seq bytes).sent ++ rest))
  read-write_fragments head zero k j seq bytes r rest small pos enough ok ready =
      absurd (omega (arith, pos, enough))
  read-write_fragments head (suc fuel) k j seq bytes r rest small pos enough ok ready =
      let (k', sent, ok') = write_fragments_step head fuel k j seq bytes pos ok in
      let r' = after_packet head j seq r bytes in
      let left = length-drop payload_len bytes in
      let no_wrap : (seq + 1) % 8 ≡ seq + 1 = omega (arith, ready.1, ready.2, small, pos) in
      let first =
        ap (λ packets. read_all r (map received packets ++ rest)) sent
        ∙ read_first head j seq r bytes
            (map received
                (write_fragments codes link head fuel k' (j + 1) ((seq + 1) % 8)
                  (drop payload_len bytes)).sent
              ++ rest)
            pos ready in
      elim (Bool-cases (ltb payload_len (length bytes))) [
        | inl long ↦
            let long' : payload_len < length bytes = ltb→lt _ _ long in
            let ready' =
              subst (λ n. IsReady (total_size head) n (drop payload_len bytes) r') (sym no_wrap)
                (after_packet-IsReady head j seq r bytes long' ready) in
            let (r2, whole, b, c, d, rate) =
              read-write_fragments head fuel k' (j + 1) ((seq + 1) % 8) (drop payload_len bytes) r'
                rest small (omega (arith, left)) (omega (arith, left)) ok' ready' in
            (
              r2,
              first ∙ whole,
              b
                  ∙ append_assoc r.bytes (take payload_len bytes) (drop payload_len bytes)
                  ∙ ap (λ bs. r.bytes ++ bs) (take-append-drop payload_len bytes),
              c,
              d,
              rate,
            )
        | inr short ↦
            let short' = ltb-false payload_len (length bytes) short in
            let none_left = length-eq-zero (drop payload_len bytes) (omega (arith, left, short')) in
            let nothing =
              ap (λ bs. (write_fragments codes link head fuel k' (j + 1) ((seq + 1) % 8) bs).sent)
                none_left
              ∙ sent_empty head fuel k' (j + 1) ((seq + 1) % 8) in
            let all = take_all payload_len bytes short' in
            let len = length-append r.bytes (take payload_len bytes) in
            let piece = length-take payload_len bytes in
            let full = more_done r' (omega arith) (omega (arith, ready.2, len, piece, short')) in
            (
              r',
              first
                  ∙ ap (λ packets. read_all r' (map received packets ++ rest)) nothing
                  ∙ read_all_done r' rest full,
              ap (λ bs. r.bytes ++ bs) all,
              refl,
              refl,
              refl,
            )
      ]

  -- Let mwifi_subcontract_write send a message of 1 to 8191 bytes to one destination, with success. If
  -- the packets arrive in order at a reader that waits for the start of a message, then the loop of
  -- __mwifi_root_read ends with exactly the bytes of the message, in a buffer of their number, and with
  -- the type and the compression rate that the sender set, and leaves later packets where they are.
  pub read-subcontract_write :
      (head : Head) (bytes : List ℕ) (start : Reading) (rest : List Answer)
      → 0 < length bytes
      → length bytes ≤ 8191
      → start.bytes ≡ []
      → start.expect_seq ≡ 0
      → payload_len ≤ start.capacity
      → (subcontract_write codes link head bytes).ret ≡ mdf_ok
      → Completes
          (length bytes)
          head
          bytes
          rest
          (read_all start (map received (subcontract_write codes link head bytes).sent ++ rest))
  unfolding subcontract_write
  read-subcontract_write head bytes start rest pos small empty fresh room ok =
      let head' = with_total_size head (length bytes) in
      let size : total_size head' ≡ length bytes = omega (arith, small) in
      let none_read = ap length empty in
      let out =
        read-write_fragments head' (suc (length bytes)) 0 0 0 bytes start rest
          (omega (arith, size, small)) pos (omega arith) ok
          (
            fresh,
            omega (arith, none_read),
            omega (arith, none_read, size),
            omega (arith, none_read, room),
            inl refl,
          ) in
      let (r, whole, b, c, d, rate) = out in
      (r, whole, b ∙ ap (λ bs. bs ++ bytes) empty, c ∙ size, d, rate)
