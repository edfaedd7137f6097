-- ===== src/Mespnow/Read/Steps.antt =====
-- The two loops of `mespnow_read`, one packet at a time.
use pio_esp_mdf_example.Prelude.{ℕ, ◌+◌, ◌<◌, ◌≤◌, ◌≡◌, ◌++◌, List, [], ◌∷◌, arith, length, take}
use pio_esp_mdf_example.Mcommon.Err.{mdf_ok}
use pio_esp_mdf_example.Mespnow.Frame.{Frame, encode, decode-encode}
use pio_esp_mdf_example.Mespnow.State.{QueueData}
use pio_esp_mdf_example.Mespnow.Read.{Result, read_rest, read_first}

-- A packet in the queue of a receiver.
abbrev pub item : List ℕ → Frame → QueueData
item addr f = record { addr = addr; bytes = encode f }

abbrev pub complete : List ℕ → List ℕ → List QueueData → Result
complete source bytes left = record {
  ret = mdf_ok;
  source = source;
  bytes = bytes;
  size = length bytes;
  left = left;
}

pub read_rest-done :
    (size total expect_seq : ℕ) (source bytes : List ℕ) (queue : List QueueData)
    → total ≤ length bytes
    → read_rest size source total expect_seq bytes queue ≡ complete source bytes queue
unfolding read_rest
read_rest-done size total expect_seq source bytes [] h = ground arith
read_rest-done size total expect_seq source bytes (q ∷ queue) h = ground arith

pub read_rest-next :
    (size total : ℕ) (source bytes addr : List ℕ) (f : Frame) (queue : List QueueData)
    → length bytes < total
    → read_rest size source total f.seq bytes (item addr f ∷ queue)
      ≡ read_rest size source total (f.seq + 1) (bytes ++ take f.size f.payload) queue
unfolding read_rest
read_rest-next size total source bytes addr f queue h = rw (decode-encode f) (ground arith)

pub read_first-found :
    (size : ℕ) (addr : List ℕ) (f : Frame) (queue : List QueueData)
    → f.seq ≡ 0
    → f.total_size < size
    → read_first size (item addr f ∷ queue)
      ≡ read_rest size addr f.total_size 1 (take f.size f.payload) queue
unfolding read_first
read_first-found size addr f queue first fits = rw (decode-encode f, read_first) (ground arith)
