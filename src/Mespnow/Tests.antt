-- ===== src/Mespnow/Tests.antt =====
-- Runs of the mespnow component, and its theorems at concrete inputs.
use pio_esp_mdf_example.Prelude.{
  ℕ, ◌+◌, ◌%◌, ◌<◌, ◌≡◌, refl, true, List, [], ◌∷◌, ◌++◌, some, arith, length, replicate, ◌==◌,
}
use pio_esp_mdf_example.Mcommon.Err.{mdf_ok}
use pio_esp_mdf_example.Mespnow.Frame.{Frame, encode, decode, decode-encode}
use pio_esp_mdf_example.Mespnow.State.{Mespnow}
use pio_esp_mdf_example.Mespnow.Receive.{Room, Received, dropped, accept, recv_cb, store, announce}
use pio_esp_mdf_example.Mespnow.Receive.Genuine.{IsRoomy}
use pio_esp_mdf_example.Mespnow.Receive.Filter.{
  IsAdmitted, recv_cb-IsAdmitted, damaged_blocks_retransmission,
}
use pio_esp_mdf_example.Mespnow.Write.{Link, write, write_loop, packet, transmit}
use pio_esp_mdf_example.Mespnow.Write.Bounds.{write_loop-fuel}
use pio_esp_mdf_example.Mespnow.Read.{read}
use pio_esp_mdf_example.Mespnow.Read.Steps.{item}
use pio_esp_mdf_example.Mespnow.Read.Overrun.{read_overruns}
use pio_esp_mdf_example.Mespnow.Channel.{deliver}
use pio_esp_mdf_example.Mespnow.Channel.RoundTrip.{read-write}

-- Some checksum: the argument that the theorems leave open.
abbrev sum8 : ℕ → List ℕ → ℕ
sum8 c [] = c
sum8 c (x ∷ xs) = sum8 ((c + x) % 256) xs

abbrev ready : Mespnow
ready = record { init_flag = true; last_magic = 0 ∷ 0 ∷ 0 ∷ 0 ∷ [] }

abbrev roomy : Room
roomy = record { spaces = 3; memory = true; sent = true }

roomy-IsRoomy : IsRoomy roomy
roomy-IsRoomy = record { spaces = omega arith; memory = refl; sent = refl }

-- Every second call is acknowledged, so each packet is sent twice.
abbrev lossy : Link
lossy = record {
  locked = true;
  memory = true;
  result = λ k. mdf_ok;
  acked = λ k. k % 2 == 1;
  random = λ j. j + 1;
}

abbrev message : List ℕ
message = replicate 300 7

abbrev dest : List ℕ
dest = 1 ∷ 2 ∷ 3 ∷ 4 ∷ 5 ∷ 6 ∷ []

read-write_example :
    (got : Received) × (deliver sum8 roomy
        (λ k. true)
        dest
        ready
        (write sum8 0x3065 lossy ready 1 (some dest) (some message)).calls
      ≡ some got)
    × (read 0x3065 ready 1 true true (some 301) (got.queued ++ [])
        ≡ record { ret = mdf_ok; source = dest; bytes = message; size = 300; left = [] })
unfolding write write_loop transmit packet
read-write_example =
    read-write sum8 roomy-IsRoomy lossy (λ k. true) dest (λ k acked. refl) (λ j same. omega arith)
      0x3065 (omega arith) ready ready 1 301 dest message [] (omega arith) (omega arith) refl refl
      (omega arith) refl

write_loop-fuel_example :
    write_loop sum8 lossy (record { pipe = 1; total = 300 }) 301 0 0 0 message
    ≡ write_loop sum8 lossy (record { pipe = 1; total = 300 }) 1000 0 0 0 message
write_loop-fuel_example =
    write_loop-fuel sum8 lossy (record { pipe = 1; total = 300 }) 301 1000 0 0 0 message
      (omega arith) (omega arith)

abbrev frame : Frame
frame = record {
  oui_0 = 0x4e;
  oui_1 = 0x4f;
  pipe = 1;
  crc = 4;
  seq = 0;
  size = 2;
  total_size = 3;
  magic = 9;
  payload = 2 ∷ 3 ∷ [];
}

abbrev damaged : Frame
damaged = record frame { payload = 2 ∷ 4 ∷ [] }

abbrev second : Frame
second = record frame { seq = 1; size = 3; magic = 10; payload = 5 ∷ 6 ∷ 7 ∷ [] }

decode-encode_example : decode (encode frame) ≡ some frame
decode-encode_example = decode-encode frame

recv_cb-IsAdmitted_example :
    IsAdmitted sum8 roomy ready frame
    × ((item dest frame ∷ []) ≡ record { addr = dest; bytes = encode frame } ∷ [])
    × (record ready { last_magic = 0 ∷ 9 ∷ 0 ∷ 0 ∷ [] }
        ≡ record ready { last_magic = 0 ∷ 9 ∷ 0 ∷ 0 ∷ [] })
unfolding recv_cb accept encode decode store announce
recv_cb-IsAdmitted_example =
    recv_cb-IsAdmitted sum8 roomy ready dest (encode frame) frame (decode-encode frame) refl
      (λ none_queued. cc)

damaged_blocks_retransmission_example :
    (s' : Mespnow) × (recv_cb sum8 roomy ready (some dest) (some (encode damaged))
      ≡ some (dropped s'))
    × (recv_cb sum8 roomy s' (some dest) (some (encode frame)) ≡ some (dropped s'))
damaged_blocks_retransmission_example =
    damaged_blocks_retransmission sum8 roomy roomy ready dest damaged frame (omega arith) refl
      (omega arith) refl refl refl refl (omega arith) (omega arith)

read_overruns_example :
    let r = read 0x3065 ready 1 true true (some 4) (item dest frame ∷ item dest second ∷ []) in
    (r.ret ≡ mdf_ok) × (4 < length r.bytes)
read_overruns_example =
    read_overruns 0x3065 ready 1 4 dest dest frame second [] refl (omega arith) refl (omega arith)
      (omega arith) (omega arith) refl (omega arith) (omega arith)
