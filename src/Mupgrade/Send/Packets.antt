-- ===== src/Mupgrade/Send/Packets.antt =====
-- Which packets are sent.
use pio_esp_mdf_example.Prelude.{
  ℕ, zero, suc, ◌+◌, ◌*◌, ◌<◌, ◌≤◌, ◌≡◌, ◌≢◌, List, [], ◌∷◌, ◌++◌, some, arith,
}
use pio_esp_mdf_example.Mcommon.Err.{Err}
use pio_esp_mdf_example.Mupgrade.Err.{err_firmware_finish}
use pio_esp_mdf_example.Mupgrade.Root.{Addr, Result, Queue, request_status}
use pio_esp_mdf_example.Mupgrade.Send.{
  SendApi, Sent, Sending, drain_sending, send_packets, send_rounds, send, firmware_send, packet_num,
  packet_size, retry_count, destination, devices,
}

-- The packet is a part of the firmware.
abbrev pub IsInside : ℕ → Sending → Type 0
IsInside total p = (0 < p.size) × (p.size ≤ 1024) × (p.seq * 1024 + p.size ≤ total)

abbrev pub AllInside : ℕ → List Sending → Type 0
AllInside total [] = Unit {0}
AllInside total (p ∷ ps) = IsInside total p × AllInside total ps

AllInside-append :
    (total : ℕ) (xs ys : List Sending)
    → AllInside total xs
    → AllInside total ys
    → AllInside total (xs ++ ys)
AllInside-append total [] ys h k = k
AllInside-append total (x ∷ xs) ys h k = (h.0, AllInside-append total xs ys h.1 k)

module _ (api : SendApi) (addrs : List Addr) (total : ℕ) (pos : 0 < total)
    (small : total ≤ 65535 * 1024) where
  packet-IsInside :
      (dest : List Addr) (seq : ℕ)
      → seq < packet_num total
      → IsInside total (record { dest = dest; seq = seq; size = packet_size total seq })
  packet-IsInside dest seq h = ground arith

  send_packets-AllInside :
      (progress : List ℕ) (i left seq : ℕ) (r : Result) (queue : Queue)
      → seq + left ≤ packet_num total
      → AllInside total (send_packets api addrs total progress i left seq r queue).sent
  unfolding send_packets
  send_packets-AllInside progress i zero seq r queue h = tt
  send_packets-AllInside progress i (suc left) seq r queue h =
      let d = drain_sending r queue in
      ground (
        arith,
        packet-IsInside (destination addrs d.1) seq (omega arith),
        send_packets-AllInside progress i left (seq + 1) r queue (omega arith),
        send_packets-AllInside progress i left (seq + 1) d.1 d.2 (omega arith),
      )

  send_rounds-AllInside :
      (left i : ℕ) (progress : List ℕ) (r : Result) (queue : Queue)
      → AllInside total (send_rounds api addrs total left i progress r queue).sent
  unfolding send_rounds
  send_rounds-AllInside zero i progress r queue = tt
  send_rounds-AllInside (suc left) i progress r queue =
      let status = request_status progress r queue in
      let round =
        send_packets api addrs total status.progress i (packet_num total) 0 status.result
          status.queue in
      let rest =
        send_rounds api addrs total left (i + 1) status.progress round.result round.queue in
      let here =
        send_packets-AllInside status.progress i (packet_num total) 0 status.result status.queue
          (omega arith) in
      ground (
        arith,
        here,
        AllInside-append total round.sent rest.sent here
            (send_rounds-AllInside left (i + 1) status.progress round.result round.queue),
      )

  send-AllInside : (queue : Queue) → AllInside total (send api addrs total queue).sent
  unfolding send
  send-AllInside queue = ground (
    arith,
    send_rounds-AllInside retry_count 0 []
        (record { unfinished = (devices api addrs).1; successed = []; requested = [] }) queue,
  )

-- If mupgrade_firmware_send sends packets of a firmware of 1 to 65535 KiB, then the download of the
-- firmware has been finished, and every packet is between 1 and 1024 bytes long and lies inside the
-- firmware at the offset of its sequence number.
pub firmware_send-AllInside :
    (api : SendApi) (addrs : List Addr) (error_code : Err) (total : ℕ) (queue : Queue) {out : Sent}
    → 0 < total
    → total ≤ 65535 * 1024
    → firmware_send api (some addrs) (some (error_code, total)) queue ≡ some out
    → out.sent ≢ []
    → (error_code ≡ err_firmware_finish) × AllInside total out.sent
unfolding firmware_send
firmware_send-AllInside api addrs error_code total queue pos small e sends =
    let inside = send-AllInside api addrs total pos small queue in
    (ground arith, ground (arith, inside))
