-- ===== src/Mespnow/Channel.antt =====
-- What becomes of the calls of esp_now_send at a receiver: some packets arrive, also where their
-- acknowledgement is lost, and each that arrives runs the receiver's callback.
pub mod Once
pub mod Whole
pub mod RoundTrip
use pio_esp_mdf_example.Prelude.{ℕ, Bool, true, false, List, [], ◌∷◌, ◌++◌, Option, none, some}
use pio_esp_mdf_example.Mespnow.State.{Mespnow}
use pio_esp_mdf_example.Mespnow.Receive.{Room, Received, dropped, recv_cb}
use pio_esp_mdf_example.Mespnow.Write.{Call}

-- Two runs of the callback in a row, as one.
abbrev pub then_also : Received → Option Received → Option Received
then_also r none = none
then_also r (some r') =
    some (record r' { events = r.events ++ r'.events; queued = r.queued ++ r'.queued })

abbrev pub continue : Option Received → (Mespnow → Option Received) → Option Received
continue none next = none
continue (some r) next = then_also r (next r.state)

module _ (crc8_le : ℕ → List ℕ → ℕ) (room : Room) (arrives : ℕ → Bool) (addr : List ℕ) where
  unfoldable pub deliver : Mespnow → List Call → Option Received
  deliver s [] = some (dropped s)
  deliver s (c ∷ cs) = elim (arrives c.index) [
    | true ↦ continue (recv_cb crc8_le room s (some addr) (some c.bytes)) (λ s'. deliver s' cs)
    | false ↦ deliver s cs
  ]
