-- ===== src/Mupgrade/Send/Devices.antt =====
-- What sending does with the lists of devices.
use pio_esp_mdf_example.Prelude.{
  count, count-append, ℕ, zero, suc, ◌+◌, ◌≤◌, ◌≡◌, ◌≢◌, ◌↔◌, false, List, [], ◌∷◌, none, some,
  arith,
}
use pio_esp_mdf_example.Mcommon.Err.{mdf_ok}
use pio_esp_mdf_example.Mupgrade.Err.{err_stop}
use pio_esp_mdf_example.Mupgrade.Root.{Addr, Result, Report, Queue, request_status}
use pio_esp_mdf_example.Mupgrade.Root.Count.{tally, count-addrs_remove, tally-request_status}
use pio_esp_mdf_example.Mupgrade.Send.{
  SendApi, note_sending, drain_sending, send_packets, send_rounds, devices, send, packet_num,
  retry_count,
}

tally-note_sending : (a : Addr) (r : Result) (q : Report) → tally a (note_sending r q).1 ≤ tally a r
unfolding note_sending
tally-note_sending a r q = ground (
  arith,
  count-addrs_remove a q.src_addr r.unfinished,
  count-append a r.successed (q.src_addr ∷ []),
)

tally-drain_sending :
    (a : Addr) (r : Result) (queue : Queue) → tally a (drain_sending r queue).1 ≤ tally a r
unfolding drain_sending
tally-drain_sending a r [] = omega arith
tally-drain_sending a r (none ∷ queue) = omega arith
tally-drain_sending a r (some q ∷ queue) =
    ground (arith, tally-note_sending a r q, tally-drain_sending a (note_sending r q).1 queue)

module _ (api : SendApi) (addrs : List Addr) (total : ℕ) (a : Addr) where
  tally-send_packets :
      (progress : List ℕ) (i left seq : ℕ) (r : Result) (queue : Queue)
      → tally a (send_packets api addrs total progress i left seq r queue).result ≤ tally a r
  unfolding send_packets
  tally-send_packets progress i zero seq r queue = omega arith
  tally-send_packets progress i (suc left) seq r queue =
      let d = drain_sending r queue in
      ground (
        arith,
        tally-drain_sending a r queue,
        tally-send_packets progress i left (seq + 1) r queue,
        tally-send_packets progress i left (seq + 1) d.1 d.2,
      )

  tally-send_rounds :
      (left i : ℕ) (progress : List ℕ) (r : Result) (queue : Queue)
      → tally a (send_rounds api addrs total left i progress r queue).result ≤ tally a r
  unfolding send_rounds
  tally-send_rounds zero i progress r queue = omega arith
  tally-send_rounds (suc left) i progress r queue =
      let status = request_status progress r queue in
      let round =
        send_packets api addrs total status.progress i (packet_num total) 0 status.result
          status.queue in
      ground (
        arith,
        tally-request_status a progress r queue,
        tally-send_packets status.progress i (packet_num total) 0 status.result status.queue,
        tally-send_rounds left (i + 1) status.progress round.result round.queue,
      )

-- Whatever the devices answer and whatever fails, when sending is over each address is together in
-- the lists of unfinished and of succeeded devices, counted together, at most as often as among the
-- devices to upgrade; and the call returns MDF_OK exactly if no device is left unfinished.
pub send_conserves :
    (api : SendApi) (addrs : List Addr) (total : ℕ) (queue : Queue) (a : Addr)
    → (tally a (send api addrs total queue).result ≤ count a (devices api addrs).1)
      × (((send api addrs total queue).ret ≡ mdf_ok)
          ↔ ((send api addrs total queue).result.unfinished ≡ []))
unfolding send
send_conserves api addrs total queue a =
    let start : Result = record {
      unfinished = (devices api addrs).1;
      successed = [];
      requested = [];
    } in
    let rounds = tally-send_rounds api addrs total a retry_count 0 [] start queue in
    (ground (arith, rounds), (ground arith, ground arith))

-- If there is no memory for the packet or for the progress array, but for the result, then
-- mupgrade_firmware_send returns MDF_OK although it sends nothing: the jump to EXIT comes before the
-- list of unfinished devices is filled, and EXIT takes the error code from that list.
no_memory_succeeds :
    (api : SendApi) (addrs : List Addr) (total : ℕ) (queue : Queue)
    → (api.packet_memory ≡ false)
    → ((send api addrs total queue).ret ≡ mdf_ok) × ((send api addrs total queue).sent ≡ [])
unfolding send
no_memory_succeeds api addrs total queue none_left = ground arith

-- While packets are being sent, a report that a device has written the whole of a firmware that is
-- not empty is thrown away: the device stays in the lists of unfinished and of requested devices.
note_sending_ignores_finished :
    (r : Result) (q : Report)
    → q.written_size ≡ q.total_size
    → q.total_size ≢ 0
    → q.error_code ≢ err_stop
    → note_sending r q ≡ (false, r)
unfolding note_sending
note_sending_ignores_finished r q whole some_bytes running = ground arith
