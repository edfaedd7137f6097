-- ===== src/Mespnow/Receive/Genuine.antt =====
-- What the callback does with a packet that `mespnow_write` made.
use pio_esp_mdf_example.Prelude.{
  ℕ, ◌<◌, ◌≡◌, ◌≢◌, true, List, [], ◌∷◌, some, arith, length, get_or, set, take,
}
use pio_esp_mdf_example.Mespnow.Frame.{Frame, encode, decode-encode}
use pio_esp_mdf_example.Mespnow.State.{Mespnow, oui_n, oui_o, uint8_max}
use pio_esp_mdf_example.Mespnow.Receive.{Room, Received, dropped, accept, recv_cb, announce}

-- The receiver has room for whatever comes.
pub record IsRoomy (room : Room) : Type 0 where
  pub spaces : 0 < room.spaces
  pub memory : room.memory ≡ true
  pub sent : room.sent ≡ true

module _ (crc8_le : ℕ → List ℕ → ℕ) where
  -- A frame as `mespnow_write` makes it.
  pub record IsSound (f : Frame) : Type 0 where
    pub oui_0 : f.oui_0 ≡ oui_n
    pub oui_1 : f.oui_1 ≡ oui_o
    pub pipe : f.pipe < 4
    pub size : f.size ≡ length f.payload
    pub crc : f.crc ≡ crc8_le uint8_max (take f.size f.payload)

  module _ {room : Room} (roomy : IsRoomy room) {f : Frame} (sound : IsSound f) where
    abbrev pub fresh : List ℕ → Mespnow → Received
    fresh addr s = record {
      state = record s { last_magic = set s.last_magic f.pipe f.magic };
      events = announce f;
      queued = record { addr = addr; bytes = encode f } ∷ [];
    }

    pub recv_cb-fresh :
        (s : Mespnow) (addr : List ℕ)
        → get_or s.last_magic f.pipe 0 ≢ f.magic
        → recv_cb crc8_le room s (some addr) (some (encode f)) ≡ some (fresh addr s)
    unfolding recv_cb accept
    recv_cb-fresh s addr new = rw (decode-encode f, recv_cb) (ground arith)

    pub recv_cb-duplicate :
        (s : Mespnow) (addr : List ℕ)
        → get_or s.last_magic f.pipe 0 ≡ f.magic
        → recv_cb crc8_le room s (some addr) (some (encode f)) ≡ some (dropped s)
    unfolding recv_cb accept
    recv_cb-duplicate s addr old = rw (decode-encode f, recv_cb) (ground arith)
