-- ===== src/Mespnow/Channel/Once.antt =====
-- One packet, sent until it is acknowledged, is stored by the receiver exactly once.
use pio_esp_mdf_example.Prelude.{
  ℕ, zero, suc, ◌+◌, ◌≡◌, refl, ◌≢◌, Bool, true, List, some, arith, length, get_or, get_or-set_self,
}
use mathlib.Core.List.{append-nil}
use pio_esp_mdf_example.Mcommon.Err.{mdf_ok}
use pio_esp_mdf_example.Mespnow.Frame.{Frame, encode}
use pio_esp_mdf_example.Mespnow.State.{Mespnow}
use pio_esp_mdf_example.Mespnow.Receive.{Room, dropped, announce}
use pio_esp_mdf_example.Mespnow.Receive.Genuine.{
  IsRoomy, IsSound, fresh, recv_cb-fresh, recv_cb-duplicate,
}
use pio_esp_mdf_example.Mespnow.Write.{Link, transmit}
use pio_esp_mdf_example.Mespnow.Channel.{deliver}

module _ (crc8_le : ℕ → List ℕ → ℕ) {room : Room} (roomy : IsRoomy room) (link : Link)
    (arrives : ℕ → Bool) (addr : List ℕ)
    (acked_arrives : (k : ℕ) → link.acked k ≡ true → arrives k ≡ true) {f : Frame}
    (sound : IsSound crc8_le f) where
  -- After the packet has been stored, its retransmissions change nothing.
  transmit-duplicates :
      (n k : ℕ) (s : Mespnow)
      → get_or s.last_magic f.pipe 0 ≡ f.magic
      → deliver crc8_le room arrives addr s (transmit link (encode f) n k).calls ≡ some (dropped s)
  unfolding transmit deliver
  transmit-duplicates zero k s old = refl
  transmit-duplicates (suc n) k s old =
      ground (
        arith,
        recv_cb-duplicate crc8_le roomy sound s addr old,
        transmit-duplicates n (k + 1) s old,
      )

  -- Some call that is acknowledged arrives, and the first call that arrives is stored.
  pub transmit-once :
      (n k : ℕ) (s : Mespnow)
      → length s.last_magic ≡ 4
      → get_or s.last_magic f.pipe 0 ≢ f.magic
      → (transmit link (encode f) n k).ret ≡ mdf_ok
      → deliver crc8_le room arrives addr s (transmit link (encode f) n k).calls
        ≡ some (fresh crc8_le roomy sound addr s)
  unfolding transmit deliver
  transmit-once zero k s four new sent = absurd (omega arith)
  transmit-once (suc n) k s four new sent = ground (
    arith,
    acked_arrives k,
    recv_cb-fresh crc8_le roomy sound s addr new,
    get_or-set_self s.last_magic f.pipe f.magic 0,
    sound.pipe,
    append-nil (announce f),
    transmit-duplicates n (k + 1) (fresh crc8_le roomy sound addr s).state,
    transmit-once n (k + 1) s four new,
  )
