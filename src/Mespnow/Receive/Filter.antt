-- ===== src/Mespnow/Receive/Filter.antt =====
-- Which packets the callback lets through.
use pio_esp_mdf_example.Prelude.{
  ℕ, ◌<◌, ◌≤◌, ◌≡◌, ◌≢◌, List, [], ◌∷◌, some, arith, length, get_or, set, take, get_or-set_self,
}
use pio_esp_mdf_example.Mespnow.Frame.{Frame, encode, decode, decode-encode}
use pio_esp_mdf_example.Mespnow.State.{Mespnow, QueueData, oui_n, oui_o, uint8_max}
use pio_esp_mdf_example.Mespnow.Receive.{Room, Received, dropped, accept, recv_cb, store}

module _ (crc8_le : ℕ → List ℕ → ℕ) where
  -- What a stored packet satisfies.
  pub record IsAdmitted (room : Room) (s : Mespnow) (f : Frame) : Type 0 where
    pub pipe : f.pipe < 4
    pub oui_0 : f.oui_0 ≡ oui_n
    pub oui_1 : f.oui_1 ≡ oui_o
    pub new : get_or s.last_magic f.pipe 0 ≢ f.magic
    pub within : f.size ≤ length f.payload
    pub crc : f.crc ≡ crc8_le uint8_max (take f.size f.payload)
    pub spaces : 0 < room.spaces

  accept-IsAdmitted :
      (room : Room) (s : Mespnow) (q : QueueData) (f : Frame) {r : Received}
      → accept crc8_le room s q f ≡ some r
      → r.queued ≢ []
      → IsAdmitted room s f
        × (r.queued ≡ q ∷ [])
        × (r.state ≡ record s { last_magic = set s.last_magic f.pipe f.magic })
  unfolding accept store
  accept-IsAdmitted room s q f e stored = ground arith

  -- Whatever bytes the callback is given as a packet, if it stores anything then it stores just the
  -- bytes received with their sender, and they have a known pipe, the right identifier, a magic that
  -- differs from the last one of the pipe, which the new one replaces, a payload of the stated size
  -- with the stated checksum, and the queue has room.
  pub recv_cb-IsAdmitted :
      (room : Room) (s : Mespnow) (addr bytes : List ℕ) (f : Frame) {r : Received}
      → decode bytes ≡ some f
      → recv_cb crc8_le room s (some addr) (some bytes) ≡ some r
      → r.queued ≢ []
      → IsAdmitted room s f
        × (r.queued ≡ record { addr = addr; bytes = bytes } ∷ [])
        × (r.state ≡ record s { last_magic = set s.last_magic f.pipe f.magic })
  unfolding recv_cb accept store
  recv_cb-IsAdmitted room s addr bytes f d e stored =
      accept-IsAdmitted room s (record { addr = addr; bytes = bytes }) f (rw (d, recv_cb) at e)
        stored

  -- A packet that arrives with a damaged payload blocks its own retransmission: the damaged copy is
  -- dropped, and so is every later packet of the pipe with the same magic, the undamaged
  -- retransmission included, since the magic is kept before the checksum is tested.
  pub damaged_blocks_retransmission :
      (room room' : Room) (s : Mespnow) (addr : List ℕ) (f f' : Frame)
      → f.pipe < 4
      → length s.last_magic ≡ 4
      → get_or s.last_magic f.pipe 0 ≢ f.magic
      → f'.pipe ≡ f.pipe
      → f'.magic ≡ f.magic
      → f.oui_0 ≡ oui_n
      → f.oui_1 ≡ oui_o
      → f.size ≤ length f.payload
      → f.crc ≢ crc8_le uint8_max (take f.size f.payload)
      → (s' : Mespnow) × (recv_cb crc8_le room s (some addr) (some (encode f)) ≡ some (dropped s'))
        × (recv_cb crc8_le room' s' (some addr) (some (encode f')) ≡ some (dropped s'))
  unfolding recv_cb accept
  damaged_blocks_retransmission room room' s addr f f' pipe four fresh same_pipe same_magic n o
        within bad =
      let s' = record s { last_magic = set s.last_magic f.pipe f.magic } in
      (
        s',
        rw (decode-encode f, recv_cb) (ground arith),
        rw (decode-encode f', recv_cb)
            (ground (arith, get_or-set_self s.last_magic f.pipe f.magic 0)),
      )
