-- ===== src/Mespnow/Channel/RoundTrip.antt =====
-- `mespnow_read` puts together what `mespnow_write` has taken apart.
use pio_esp_mdf_example.Prelude.{
  ℕ, zero, suc, ◌+◌, ◌*◌, ◌<◌, ◌≤◌, ◌%◌, ◌≡◌, refl, ◌≢◌, Bool, true, ◌++◌, List, [], ◌∷◌, some,
  arith, length, get_or, Bool-cases, inl, inr, map, drop, leb, take, min, take-min, length-take,
  take_all, length-drop, ap, sym, ◌∙◌, take-append-drop, length-append, if◌then◌else◌,
}
use mathlib.Core.List.{append_assoc}
use pio_esp_mdf_example.Mcommon.Err.{Err, mdf_ok}
use pio_esp_mdf_example.Mespnow.State.{Mespnow, QueueData, payload_len}
use pio_esp_mdf_example.Mespnow.Receive.{Room, Received}
use pio_esp_mdf_example.Mespnow.Receive.Genuine.{IsRoomy}
use pio_esp_mdf_example.Mespnow.Write.{Link, Message, packet, write, write_loop}
use pio_esp_mdf_example.Mespnow.Read.Steps.{
  item, complete, read_rest-done, read_rest-next, read_first-found,
}
use pio_esp_mdf_example.Mespnow.Read.{read_rest, read_first, read}
use pio_esp_mdf_example.Mespnow.Channel.{deliver}
use pio_esp_mdf_example.Mespnow.Channel.Whole.{packets, write_loop-stored}

module _ (crc8_le : ℕ → List ℕ → ℕ) (link : Link) (m : Message) where
  packet-payload :
      (j seq : ℕ) (bytes : List ℕ)
      → let f = packet crc8_le link m j seq bytes in take f.size f.payload ≡ take payload_len bytes
  unfolding packet
  packet-payload j seq bytes =
      take_all (min (length bytes) payload_len) (take (min (length bytes) payload_len) bytes)
        (omega (arith, length-take (min (length bytes) payload_len) bytes))
      ∙ take-min payload_len bytes

  read_rest-packet :
      (size total j seq : ℕ) (bytes done source addr : List ℕ) (queue : List QueueData)
      → length done < total
      → read_rest size source total seq done (item addr (packet crc8_le link m j seq bytes) ∷ queue)
        ≡ read_rest size source total (seq + 1) (done ++ take payload_len bytes) queue
  unfolding packet
  read_rest-packet size total j seq bytes done source addr queue h =
      read_rest-next size total source done addr (packet crc8_le link m j seq bytes) queue h
      ∙ ap (λ l. read_rest size source total (seq + 1) (done ++ l) queue)
          (packet-payload j seq bytes)

  pub read_rest-packets :
      (fuel j seq size : ℕ) (bytes done source addr : List ℕ) (more : List QueueData)
      → length bytes < fuel
      → 0 < length bytes
      → length done + length bytes ≡ m.total
      → length bytes + 238 * seq ≤ 238 * 256
      → read_rest size source m.total seq done
          (map (item addr) (packets crc8_le link m fuel j seq bytes) ++ more)
        ≡ complete source (done ++ bytes) more
  unfolding packets
  read_rest-packets zero j seq size bytes done source addr more enough some_left total fits =
      elim enough [ ]
  read_rest-packets (suc fuel) j seq size bytes done source addr more enough some_left total fits =
      let part = take payload_len bytes in
      let rest = drop payload_len bytes in
      let head = λ (queue : List QueueData).
        read_rest-packet size m.total j seq bytes done source addr queue (omega arith) in
      elim (Bool-cases (leb (length bytes) payload_len)) [
        | inl last ↦
            let whole : part ≡ bytes = take_all payload_len bytes (ground arith) in
            rw last (
              head more
              ∙ ap (λ l. read_rest size source m.total (seq + 1) (done ++ l) more) whole
              ∙ read_rest-done size m.total (seq + 1) source (done ++ bytes) more
                  (omega (arith, length-append done bytes)))
        | inr more_left ↦
            let big : payload_len < length bytes = ground arith in
            let split : (done ++ part) ++ rest ≡ done ++ bytes =
              append_assoc done part rest
              ∙ ap (λ l. done ++ l) (take-append-drop payload_len bytes) in
            let next : (seq + 1) % 256 ≡ seq + 1 = omega arith in
            rw (more_left, next)
              (head (map (item addr) (packets crc8_le link m fuel (j + 1) (seq + 1) rest) ++ more)
                ∙ read_rest-packets fuel (j + 1) (seq + 1) size rest (done ++ part) source addr more
                    (omega (arith, length-drop payload_len bytes))
                    (omega (arith, length-drop payload_len bytes))
                    (omega (
                      arith,
                      length-append done part,
                      length-drop payload_len bytes,
                      length-take payload_len bytes,
                    ))
                    (omega (arith, length-drop payload_len bytes))
                ∙ ap (λ l. complete source l more) split)
      ]

module _ (crc8_le : ℕ → List ℕ → ℕ) (link : Link) (m : Message) where
  read_first-packets :
      (fuel size : ℕ) (bytes addr : List ℕ) (more : List QueueData)
      → length bytes < fuel
      → 0 < length bytes
      → length bytes ≡ m.total
      → m.total ≤ 238 * 256
      → m.total < size
      → read_first size (map (item addr) (packets crc8_le link m fuel 0 0 bytes) ++ more)
        ≡ complete addr bytes more
  unfolding packets packet
  read_first-packets zero size bytes addr more enough some_left total few fits = elim enough [ ]
  read_first-packets (suc fuel) size bytes addr more enough some_left total few fits =
      let f = packet crc8_le link m 0 0 bytes in
      let queue =
        map (item addr) (
          if leb (length bytes) payload_len
          then []
          else packets crc8_le link m fuel 1 1 (drop payload_len bytes))
        ++ more in
      let whole : m.total % 65536 ≡ m.total = omega arith in
      read_first-found size addr f queue refl (omega arith)
      ∙ ap (λ t. read_rest size addr t 1 (take f.size f.payload) queue) whole
      ∙ sym (read_rest-next size m.total addr [] addr f queue (omega arith))
      ∙ read_rest-packets crc8_le link m (suc fuel) 0 0 size bytes [] addr addr more enough
          some_left (omega arith) (omega arith)

-- What a call that succeeds has done.
write-calls :
    (crc8_le : ℕ → List ℕ → ℕ) (not_init : Err) (link : Link) (s : Mespnow) (pipe : ℕ)
    (dest bytes : List ℕ)
    → not_init ≢ mdf_ok
    → (write crc8_le not_init link s pipe (some dest) (some bytes)).ret ≡ mdf_ok
    → let sent =
        write_loop crc8_le link
          (record { pipe = pipe; total = length bytes })
          (suc (length bytes))
          0
          0
          0
          bytes in
      (0 < length bytes)
      × (pipe < 4)
      × (sent.ret ≡ mdf_ok)
      × ((write crc8_le not_init link s pipe (some dest) (some bytes)).calls ≡ sent.calls)
unfolding write
write-calls crc8_le not_init link s pipe dest bytes nonzero ok = ground arith

module _ (crc8_le : ℕ → List ℕ → ℕ) {room : Room} (roomy : IsRoomy room) (link : Link)
    (arrives : ℕ → Bool) (addr : List ℕ)
    (acked_arrives : (k : ℕ) → link.acked k ≡ true → arrives k ≡ true)
    (new : (j : ℕ) → link.random j ≢ link.random (j + 1)) (not_init : Err)
    (nonzero : not_init ≢ mdf_ok) where
  -- If `mespnow_write` returns MDF_OK for a message of at most 256 packets, then whatever packets
  -- and acknowledgements were lost on the way, a receiver with room in its queue, that has been
  -- initialised and whose last packet on this pipe had another magic than the message's first,
  -- stores the message's packets, and `mespnow_read` with a buffer longer than the message returns
  -- MDF_OK, the sender's address, exactly the message and its length, and leaves later packets in
  -- the queue. Each acknowledged packet is taken to have arrived, and the magics of consecutive
  -- packets to differ.
  pub read-write :
      (s r : Mespnow) (pipe size : ℕ) (dest bytes : List ℕ) (more : List QueueData)
      → length bytes ≤ 238 * 256
      → length bytes < size
      → r.init_flag ≡ true
      → length r.last_magic ≡ 4
      → get_or r.last_magic pipe 0 ≢ link.random 0
      → (write crc8_le not_init link s pipe (some dest) (some bytes)).ret ≡ mdf_ok
      → (got : Received) × (deliver crc8_le room arrives addr r
            (write crc8_le not_init link s pipe (some dest) (some bytes)).calls
          ≡ some got)
        × (read not_init r pipe true true (some size) (got.queued ++ more) ≡ record {
          ret = mdf_ok;
          source = addr;
          bytes = bytes;
          size = length bytes;
          left = more;
        })
  unfolding read
  read-write s r pipe size dest bytes more few fits ready four fresh_magic ok =
      let m : Message = record { pipe = pipe; total = length bytes } in
      let (some_bytes, in_range, sent, calls) =
        write-calls crc8_le not_init link s pipe dest bytes nonzero ok in
      let (got, delivered, queued) =
        write_loop-stored crc8_le roomy link m arrives addr acked_arrives new in_range
          (suc (length bytes)) 0 0 0 bytes r (omega arith) four fresh_magic sent in
      let found =
        read_first-packets crc8_le link m (suc (length bytes)) size bytes addr more (omega arith)
          some_bytes refl few fits in
      (got, rw calls delivered, rw queued (ground (arith, found)))
