-- ===== src/Mespnow/Channel/Whole.antt =====
-- A whole message: the receiver stores its packets in order, each once.
use pio_esp_mdf_example.Prelude.{
  ℕ, zero, suc, ◌+◌, ◌<◌, ◌%◌, ◌≡◌, refl, ◌≢◌, Bool, true, ◌++◌, List, [], ◌∷◌, some, none, arith,
  length, get_or, get_or-set_self, length-set, Bool-cases, inl, inr, Option, map, drop, leb,
  if◌then◌else◌, take, min, length-take, take_all, length-drop, ◌∙◌, ap,
}
use mathlib.Core.Path.{fun_ext}
use mathlib.Core.List.{append_assoc}
use pio_esp_mdf_example.Mcommon.Err.{mdf_ok}
use pio_esp_mdf_example.Mespnow.Frame.{Frame, encode}
use pio_esp_mdf_example.Mespnow.State.{Mespnow, payload_len}
use pio_esp_mdf_example.Mespnow.Receive.{Room, Received, dropped, announce, recv_cb}
use pio_esp_mdf_example.Mespnow.Receive.Genuine.{IsRoomy, IsSound, fresh}
use pio_esp_mdf_example.Mespnow.Write.{
  Link, Call, Message, packet, write_loop, transmit, retransmit_num,
}
use pio_esp_mdf_example.Mespnow.Write.Follow.{follow-ok, follow-last, follow-more}
use pio_esp_mdf_example.Mespnow.Read.Steps.{item}
use pio_esp_mdf_example.Mespnow.Channel.{deliver, then_also, continue}
use pio_esp_mdf_example.Mespnow.Channel.Once.{transmit-once}

module _ (crc8_le : ℕ → List ℕ → ℕ) (room : Room) (arrives : ℕ → Bool) (addr : List ℕ) where
  then_also_assoc :
      (r r' : Received) (o : Option Received)
      → then_also r (then_also r' o)
        ≡ then_also (record r' { events = r.events ++ r'.events; queued = r.queued ++ r'.queued }) o
  then_also_assoc r r' none = refl
  then_also_assoc r r' (some r'') = ground (
    arith,
    append_assoc r.events r'.events r''.events,
    append_assoc r.queued r'.queued r''.queued,
  )

  then_also-dropped : (s : Mespnow) (o : Option Received) → o ≡ then_also (dropped s) o
  then_also-dropped s none = refl
  then_also-dropped s (some r) = refl

  continue_assoc :
      (r : Received) (o : Option Received) (next : Mespnow → Option Received)
      → then_also r (continue o next) ≡ continue (then_also r o) next
  continue_assoc r none next = refl
  continue_assoc r (some r') next = then_also_assoc r r' (next r'.state)

  continue-continue :
      (o : Option Received) (f g : Mespnow → Option Received)
      → continue o (λ s. continue (f s) g) ≡ continue (continue o f) g
  continue-continue none f g = refl
  continue-continue (some r) f g = continue_assoc r (f r.state) g

  deliver-append :
      (s : Mespnow) (xs ys : List Call)
      → deliver crc8_le room arrives addr s (xs ++ ys)
        ≡ continue
            (deliver crc8_le room arrives addr s xs)
            (λ s'. deliver crc8_le room arrives addr s' ys)
  unfolding deliver
  deliver-append s [] ys =
      ground (arith, then_also-dropped s (deliver crc8_le room arrives addr s ys))
  deliver-append s (c ∷ cs) ys = elim (Bool-cases (arrives c.index)) [
    | inl comes ↦
        rw (comes, deliver, fun_ext (λ s'. deliver-append s' cs ys))
          (continue-continue (recv_cb crc8_le room s (some addr) (some c.bytes))
            (λ s'. deliver crc8_le room arrives addr s' cs)
            (λ s'. deliver crc8_le room arrives addr s' ys))
    | inr lost ↦ rw (lost, deliver) (deliver-append s cs ys)
  ]

-- The packets of what is left to write.
module _ (crc8_le : ℕ → List ℕ → ℕ) (link : Link) (m : Message) where
  unfoldable pub packets : ℕ → ℕ → ℕ → List ℕ → List Frame
  packets zero j seq bytes = []
  packets (suc fuel) j seq bytes =
      let rest = packets fuel (j + 1) ((seq + 1) % 256) (drop payload_len bytes) in
      packet crc8_le link m j seq bytes ∷ (if leb (length bytes) payload_len then [] else rest)

module _ (crc8_le : ℕ → List ℕ → ℕ) {room : Room} (roomy : IsRoomy room) (link : Link) (m : Message)
    (arrives : ℕ → Bool) (addr : List ℕ)
    (acked_arrives : (k : ℕ) → link.acked k ≡ true → arrives k ≡ true)
    (new : (j : ℕ) → link.random j ≢ link.random (j + 1)) (pipe : m.pipe < 4) where
  packet-IsSound :
      (j seq : ℕ) (bytes : List ℕ) → IsSound crc8_le (packet crc8_le link m j seq bytes)
  unfolding packet
  packet-IsSound j seq bytes = record {
    oui_0 = refl;
    oui_1 = refl;
    pipe = pipe;
    size = omega (arith, length-take (min (length bytes) payload_len) bytes);
    crc = rw (
        take_all (min (length bytes) payload_len) (take (min (length bytes) payload_len) bytes)
          (omega (arith, length-take (min (length bytes) payload_len) bytes)));
  }

  pub write_loop-stored :
      (fuel k j seq : ℕ) (bytes : List ℕ) (s : Mespnow)
      → length bytes < fuel
      → length s.last_magic ≡ 4
      → get_or s.last_magic m.pipe 0 ≢ link.random j
      → (write_loop crc8_le link m fuel k j seq bytes).ret ≡ mdf_ok
      → (r : Received) × (deliver crc8_le room arrives addr s
            (write_loop crc8_le link m fuel k j seq bytes).calls
          ≡ some r)
        × (r.queued ≡ map (item addr) (packets crc8_le link m fuel j seq bytes))
  unfolding write_loop packets packet
  write_loop-stored zero k j seq bytes s enough four fresh_magic sent = elim enough [ ]
  write_loop-stored (suc fuel) k j seq bytes s enough four fresh_magic sent =
      let f = packet crc8_le link m j seq bytes in
      let first = transmit link (encode f) retransmit_num k in
      let sound = packet-IsSound j seq bytes in
      let s' = (fresh crc8_le roomy sound addr s).state in
      let others =
        write_loop crc8_le link m fuel first.next (j + 1) ((seq + 1) % 256)
          (drop payload_len bytes) in
      let (acked, more_sent) = follow-ok first (leb (length bytes) payload_len) others sent in
      let once =
        transmit-once crc8_le roomy link arrives addr acked_arrives sound retransmit_num k s four
          fresh_magic acked in
      elim (Bool-cases (leb (length bytes) payload_len)) [
        | inl last ↦ (
          fresh crc8_le roomy sound addr s,
          rw last (rw (follow-last first others) once),
          rw last,
        )
        | inr more ↦
            let (r, e, q) =
              write_loop-stored fuel first.next (j + 1) ((seq + 1) % 256) (drop payload_len bytes)
                s' (ground (arith, length-drop payload_len bytes))
                (length-set s.last_magic m.pipe (link.random j) ∙ four)
                (rw (get_or-set_self s.last_magic m.pipe (link.random j) 0 (omega arith)) (new j))
                (more_sent more) in
            (
              record r { events = announce f ++ r.events; queued = item addr f ∷ r.queued },
              rw more (
                  rw (follow-more first others acked) (
                    rw (deliver-append crc8_le room arrives addr s first.calls others.calls, once)
                      (ap (then_also (fresh crc8_le roomy sound addr s)) e))),
              rw more (ap (λ l. item addr f ∷ l) q),
            )
      ]
