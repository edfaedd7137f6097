-- ===== src/Mespnow/State.antt =====
-- The static state of esp-mdf/components/mespnow/mespnow.c, and what its functions do besides
-- returning: the events that they post, the lock that they take and give, the frames that they
-- hand to the radio.
use pio_esp_mdf_example.Prelude.{ℕ, Bool, List, [], ◌∷◌, if◌then◌else◌, ◌==◌, false}

-- MESPNOW_TRANS_PIPE_DEBUG, MESPNOW_TRANS_PIPE_MAX, MESPNOW_PAYLOAD_LEN and UINT8_MAX
abbrev pub trans_pipe_debug : ℕ
trans_pipe_debug = 0

abbrev pub trans_pipe_max : ℕ
trans_pipe_max = 4

abbrev pub payload_len : ℕ
payload_len = 238

abbrev pub uint8_max : ℕ
uint8_max = 255

-- g_oui
abbrev pub oui_n : ℕ
oui_n = 0x4e

abbrev pub oui_o : ℕ
oui_o = 0x4f

-- g_espnow_init_flag and g_last_magic, one magic for each pipe.
pub record Mespnow : Type 0 where
  pub init_flag : Bool
  pub last_magic : List ℕ

-- The state before `mespnow_init`.
abbrev pub initial : Mespnow
initial = record { init_flag = false; last_magic = 0 ∷ 0 ∷ 0 ∷ 0 ∷ [] }

-- mespnow_queue_data_t: the sender and the bytes as they came.
pub record QueueData : Type 0 where
  pub addr : List ℕ
  pub bytes : List ℕ

-- What goes to mdf_event_loop_send, with the pipe as its context.
pub data Event : Type 0 where
  mespnow_recv mespnow_send : ℕ → Event

-- Both callbacks and `mespnow_write` post no event for the debug pipe.
abbrev pub announced : ℕ → Event → List Event
announced pipe e = if pipe == trans_pipe_debug then [] else e ∷ []
