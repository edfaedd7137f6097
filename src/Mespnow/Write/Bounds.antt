-- ===== src/Mespnow/Write/Bounds.antt =====
-- The loops of `mespnow_write` end, make a bounded number of calls, and treat the lock alike.
use pio_esp_mdf_example.Prelude.{
  ℕ, zero, suc, ◌+◌, ◌-◌, ◌*◌, ◌/◌, ◌%◌, ◌<◌, ◌≤◌, ◌≡◌, ◌↔◌, Bool, true, false, List, [], ◌∷◌, some,
  arith, length, drop, leb, length-drop, Bool-cases, inl, inr,
}
use pio_esp_mdf_example.Mcommon.Err.{Err}
use pio_esp_mdf_example.Mespnow.Frame.{encode}
use pio_esp_mdf_example.Mespnow.State.{Mespnow, payload_len}
use pio_esp_mdf_example.Mespnow.Write.Follow.{length-follow}
use pio_esp_mdf_example.Mespnow.Write.{
  Link, Message, LockOp, take_lock, give_lock, transmit, write_loop, packet, write, retransmit_num,
}

length-transmit :
    (link : Link) (bytes : List ℕ) (n k : ℕ) → length (transmit link bytes n k).calls ≤ n
unfolding transmit
length-transmit link bytes zero k = omega arith
length-transmit link bytes (suc n) k = ground (arith, length-transmit link bytes n (k + 1))

module _ (crc8_le : ℕ → List ℕ → ℕ) (link : Link) (m : Message) where
  -- The result of the loop over the packets of a message does not depend on the fuel, once that
  -- exceeds the length of the message: the loop ends by itself.
  pub write_loop-fuel :
      (fuel fuel' k j seq : ℕ) (bytes : List ℕ)
      → length bytes < fuel
      → length bytes < fuel'
      → write_loop crc8_le link m fuel k j seq bytes ≡ write_loop crc8_le link m fuel' k j seq bytes
  unfolding write_loop
  write_loop-fuel zero fuel' k j seq bytes h h' = elim h [ ]
  write_loop-fuel (suc fuel) zero k j seq bytes h h' = elim h' [ ]
  write_loop-fuel (suc fuel) (suc fuel') k j seq bytes h h' =
      let first = transmit link (encode (packet crc8_le link m j seq bytes)) retransmit_num k in
      elim (Bool-cases (leb (length bytes) payload_len)) [
        | inl last ↦ rw last
        | inr more ↦ rw (
          more,
          write_loop-fuel fuel fuel' first.next (j + 1) ((seq + 1) % 256) (drop payload_len bytes)
              (ground (arith, length-drop payload_len bytes))
              (ground (arith, length-drop payload_len bytes)),
        )
      ]

  length-write_loop :
      (fuel k j seq : ℕ) (bytes : List ℕ)
      → length (write_loop crc8_le link m fuel k j seq bytes).calls
        ≤ 3 * ((length bytes - 1) / 238 + 1)
  unfolding write_loop
  length-write_loop zero k j seq bytes = omega arith
  length-write_loop (suc fuel) k j seq bytes =
      let bytes' = encode (packet crc8_le link m j seq bytes) in
      let first = transmit link bytes' retransmit_num k in
      let others =
        write_loop crc8_le link m fuel first.next (j + 1) ((seq + 1) % 256)
          (drop payload_len bytes) in
      let one = length-transmit link bytes' retransmit_num k in
      elim (Bool-cases (leb (length bytes) payload_len)) [
        | inl last ↦ rw last (omega (arith, one, length-follow first true others))
        | inr more ↦
            let fewer =
              length-write_loop fuel first.next (j + 1) ((seq + 1) % 256)
                (drop payload_len bytes) in
            let long : payload_len < length bytes = ground arith in
            rw more (
              omega (
                arith,
                one,
                length-follow first false others,
                fewer,
                long,
                length-drop payload_len bytes,
              ))
      ]

-- Whether the lock is held by the caller after these operations.
abbrev pub is_held : Bool → List LockOp → Bool
is_held before [] = before
is_held before (take_lock ∷ ops) = is_held true ops
is_held before (give_lock ∷ ops) = is_held false ops

module _ (crc8_le : ℕ → List ℕ → ℕ) (not_init : Err) (link : Link) (s : Mespnow) (pipe : ℕ) where
  -- mespnow_write calls esp_now_send at most three times for each started block of 238 bytes of the
  -- message.
  length-write_calls :
      (dest bytes : List ℕ)
      → length (write crc8_le not_init link s pipe (some dest) (some bytes)).calls
        ≤ 3 * ((length bytes - 1) / 238 + 1)
  unfolding write
  length-write_calls dest bytes = ground (
    arith,
    length-write_loop crc8_le link (record { pipe = pipe; total = length bytes })
        (suc (length bytes)) 0 0 0 bytes,
  )

  -- mespnow_write leaves its lock taken exactly if the arguments are valid, ESP-NOW is initialised,
  -- the lock was obtained and then there is no memory for the packet. Every later call that waits for
  -- the lock then times out.
  lock_kept :
      (dest bytes : List ℕ)
      → (is_held false (write crc8_le not_init link s pipe (some dest) (some bytes)).lock ≡ true)
        ↔ ((0 < length bytes)
            × (pipe < 4)
            × (s.init_flag ≡ true)
            × (link.locked ≡ true)
            × (link.memory ≡ false))
  unfolding write
  lock_kept dest bytes = (ground arith, ground arith)
