-- ===== src/Mespnow/Receive.antt =====
-- mespnow_recv_cb of esp-mdf/components/mespnow/mespnow.c.
pub mod Genuine
pub mod Filter
use pio_esp_mdf_example.Prelude.{
  ℕ, Bool, not, ◌&&◌, List, [], Option, none, some, length, take, set, get_or, ltb, leb, ◌==◌,
  if◌then◌else◌, ◌∷◌,
}
use pio_esp_mdf_example.Mespnow.Frame.{Frame, decode}
use pio_esp_mdf_example.Mespnow.State.{
  Mespnow, QueueData, Event, mespnow_recv, announced, trans_pipe_max, uint8_max, oui_n, oui_o,
}

-- What the calls of FreeRTOS and of the allocator answer: uxQueueSpacesAvailable, MDF_MALLOC and
-- xQueueSend.
pub record Room : Type 0 where
  pub spaces : ℕ
  pub memory : Bool
  pub sent : Bool

pub record Received : Type 0 where
  pub state : Mespnow
  pub events : List Event
  pub queued : List QueueData

abbrev pub dropped : Mespnow → Received
dropped s = record { state = s; events = []; queued = [] }

-- The packet is stored in the queue of its pipe, if there is room and memory for it.
unfoldable pub store : Room → QueueData → List QueueData
store room item =
    if room.spaces == 0
    then []
    else if not room.memory
    then []
    else if not room.sent
    then []
    else item ∷ []

-- The first packet of a message is announced, but for those of the debug pipe.
unfoldable pub announce : Frame → List Event
announce f = if f.seq == 0 then announced f.pipe (mespnow_recv f.pipe) else []

module _ (crc8_le : ℕ → List ℕ → ℕ) where
  -- The callback behind the cast to a frame. `none` is a read past the end of what was received:
  -- the checksum runs over `size` bytes, a number that the frame itself states.
  unfoldable pub accept : Room → Mespnow → QueueData → Frame → Option Received
  unfolding store announce
  accept room s item f =
      let s' = record s { last_magic = set s.last_magic f.pipe f.magic } in
      if leb trans_pipe_max f.pipe
      then some (dropped s)
      else if not (f.oui_0 == oui_n && f.oui_1 == oui_o)
      then some (dropped s)
      else if get_or s.last_magic f.pipe 0 == f.magic
      then some (dropped s)
      else if ltb (length f.payload) f.size
      then none
      else if not (f.crc == crc8_le uint8_max (take f.size f.payload))
      then some (dropped s')
      else some (record { state = s'; events = announce f; queued = store room item })

  -- A null pointer is `none`.
  unfoldable pub recv_cb : Room → Mespnow → Option (List ℕ) → Option (List ℕ) → Option Received
  recv_cb room s none bytes = some (dropped s)
  recv_cb room s (some addr) none = some (dropped s)
  recv_cb room s (some addr) (some bytes) = elim (decode bytes) [
    | none ↦ some (dropped s)
    | some f ↦ accept room s (record { addr = addr; bytes = bytes }) f
  ]
