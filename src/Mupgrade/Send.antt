-- ===== src/Mupgrade/Send.antt =====
-- mupgrade_firmware_send of esp-mdf/components/mupgrade/mupgrade_root.c.
pub mod Devices
pub mod Packets
use pio_esp_mdf_example.Prelude.{
  ℕ, zero, suc, ◌+◌, ◌-◌, ◌/◌, ◌%◌, ◌^◌, Bool, true, false, not, ◌&&◌, ◌||◌, List, [], ◌∷◌, ◌++◌,
  Option, none, some, ltb, leb, ◌==◌, if◌then◌else◌, length, get_or,
}
use pio_esp_mdf_example.Mcommon.Err.{Err, mdf_ok, mdf_err_invalid_arg}
use pio_esp_mdf_example.Mupgrade.Err.{
  err_stop, err_firmware_not_init, err_firmware_incomplete, err_firmware_finish,
}
use pio_esp_mdf_example.Mupgrade.Progress.{get_bit, packet_max_size}
use pio_esp_mdf_example.Mupgrade.Root.{
  Addr, Result, Report, Queue, addrs_remove, succeed, Requested, request_status,
}

-- MWIFI_ADDR_EMPTY, MWIFI_ADDR_ANY and MWIFI_ADDR_BROADCAST of mwifi.h
abbrev pub addr_empty : Addr
addr_empty = 0

abbrev pub addr_any : Addr
addr_any = 0xffff_ffff_ffff

abbrev pub addr_broadcast : Addr
addr_broadcast = 0xffff_ffff_fffe

-- What the system answers: the routing table and the result of reading it, the root's address, the
-- memory for the packet, the progress array and the result, the result of reading a packet of a
-- round from flash, and whether g_mupgrade_send_running_flag still holds at the start of a round and at a packet
-- of a round (mupgrade_firmware_stop, in another task, clears it).
pub record SendApi : Type 0 where
  pub table_size : ℕ
  pub table : List Addr
  pub table_ret : Err
  pub root_mac : Addr
  pub packet_memory : Bool
  pub progress_memory : Bool
  pub result_memory : Bool
  pub list_memory : Bool
  pub flash : ℕ → ℕ → Err
  pub running_round : ℕ → Bool
  pub running_packet : ℕ → ℕ → Bool

-- One call of mwifi_root_write with a packet of the firmware.
pub record Sending : Type 0 where
  pub dest : List Addr
  pub seq : ℕ
  pub size : ℕ

-- One report that comes while packets are sent; whether the loop goes on at once.
unfoldable pub note_sending : Result → Report → Bool × Result
note_sending r q =
    let (listed, unfinished) = addrs_remove r.unfinished q.src_addr in
    let (asked, requested) = addrs_remove r.requested q.src_addr in
    let r' = record r { unfinished = unfinished } in
    if q.written_size == 0 && q.written_size == q.total_size
    then (if not listed
        then (true, r)
        else if not asked
        then (true, r')
        else (false, succeed (record r { requested = requested }) unfinished q.src_addr))
    else if q.error_code == err_stop
    then (false, record r { unfinished = unfinished; requested = requested })
    else (false, r)

-- The reports that are there, without waiting; `true` is the jump to EXIT.
unfoldable pub drain_sending : Result → Queue → Bool × Result × Queue
drain_sending r [] = (false, r, [])
drain_sending r (none ∷ queue) = (false, r, queue)
drain_sending r (some q ∷ queue) =
    let (again, r') = note_sending r q in
    let rest = drain_sending r' queue in
    if again then rest else if length r'.unfinished == 0 then (true, r', queue) else rest

-- Where a packet goes: the list that was asked for, while fewer than two devices are done.
unfoldable pub destination : List Addr → Result → List Addr
destination addrs r =
    let first = get_or addrs 0 0 in
    if (first == addr_any || first == addr_broadcast)
      && ltb (length r.successed) 2
      && length addrs == 1
    then (if first == addr_any && length r.successed == 1 then addr_broadcast ∷ [] else addrs)
    else r.requested

pub record Round : Type 0 where
  pub exit : Bool
  pub result : Result
  pub queue : Queue
  pub sent : List Sending

-- The firmware as it is sent: its size in packets and the size of the last one, both 16 bits.
abbrev pub packet_num : ℕ → ℕ
packet_num total = (total + packet_max_size - 1) % 2 ^ 32 / packet_max_size % 65536

abbrev pub last_packet_size : ℕ → ℕ
last_packet_size total =
    if total % packet_max_size == 0 then packet_max_size else total % packet_max_size

abbrev pub packet_size : ℕ → ℕ → ℕ
packet_size total seq =
    if seq + 1 == packet_num total then last_packet_size total else packet_max_size

-- The loop over the packets, `left` of them from `seq` on.
unfoldable pub send_packets : SendApi → List Addr → ℕ → List ℕ → ℕ → ℕ → ℕ → Result → Queue → Round
send_packets api addrs total progress i zero seq r queue = record {
  exit = false;
  result = r;
  queue = queue;
  sent = [];
}
send_packets api addrs total progress i (suc left) seq r queue =
    let (out, r', queue') = drain_sending r queue in
    let skip = send_packets api addrs total progress i left (seq + 1) r queue in
    let rest = send_packets api addrs total progress i left (seq + 1) r' queue' in
    let packet : Sending = record {
      dest = destination addrs r';
      seq = seq;
      size = packet_size total seq;
    } in
    if length r.requested == 0 || not (api.running_packet i seq)
    then record { exit = false; result = r; queue = queue; sent = [] }
    else if get_bit progress seq
    then skip
    else if not (api.flash i seq == mdf_ok)
    then record { exit = true; result = r; queue = queue; sent = [] }
    else if out
    then record { exit = true; result = r'; queue = queue'; sent = [] }
    else record rest { sent = packet ∷ rest.sent }

-- The rounds, `left` of them from round `i` on.
unfoldable pub send_rounds : SendApi → List Addr → ℕ → ℕ → ℕ → List ℕ → Result → Queue → Round
send_rounds api addrs total zero i progress r queue = record {
  exit = false;
  result = r;
  queue = queue;
  sent = [];
}
send_rounds api addrs total (suc left) i progress r queue =
    let status = request_status progress r queue in
    let round =
      send_packets api addrs total status.progress i (packet_num total) 0 status.result
        status.queue in
    let rest = send_rounds api addrs total left (i + 1) status.progress round.result round.queue in
    if length r.unfinished == 0 || not (api.running_round i)
    then record { exit = false; result = r; queue = queue; sent = [] }
    else if status.ret == mdf_ok
    then record { exit = false; result = status.result; queue = status.queue; sent = [] }
    else if round.exit
    then round
    else record rest { sent = round.sent ++ rest.sent }

-- CONFIG_MUPGRADE_RETRY_COUNT
abbrev pub retry_count : ℕ
retry_count = 20

-- `reset` is whether the written size in the configuration was set to 0 on the way.
pub record Sent : Type 0 where
  pub ret : Err
  pub result : Result
  pub sent : List Sending
  pub reset : Bool

abbrev pub refused : Err → Sent
refused e = record {
  ret = e;
  result = record { unfinished = []; successed = []; requested = [] };
  sent = [];
  reset = false;
}

-- The devices to upgrade, or a jump to EXIT with what is in the list then. Without memory for the list
-- the code sets only its length; the model then has the list of that length.
unfoldable pub devices : SendApi → List Addr → Bool × List Addr
devices api addrs =
    let first = get_or addrs 0 0 in
    let (_, others) = addrs_remove api.table api.root_mac in
    if not api.list_memory
    then (false, if first == addr_any || first == addr_broadcast then api.table else addrs)
    else if first == addr_broadcast
    then (not (ltb 2048 (length others) || length others == 0), others)
    else if first == addr_any
    then (api.table_ret == mdf_ok, api.table)
    else (true, addrs)

-- mupgrade_firmware_send behind its guards. EXIT looks only at the unfinished devices.
unfoldable pub send : SendApi → List Addr → ℕ → Queue → Sent
send api addrs total queue =
    let (ready, unfinished) = devices api addrs in
    let start : Result = record { unfinished = unfinished; successed = []; requested = [] } in
    let round = send_rounds api addrs total retry_count 0 [] start queue in
    let done = λ (r : Result) (sent : List Sending) (reset : Bool).
      let ret = if length r.unfinished == 0 then mdf_ok else err_firmware_incomplete in
      let out : Sent = record { ret = ret; result = r; sent = sent; reset = reset } in out in
    if not api.packet_memory || not api.progress_memory
    then done (record start { unfinished = [] }) [] false
    else if not ready
    then done start [] false
    else done round.result round.sent true

-- The whole function: a null pointer is `none`, and so is the configuration before
-- mupgrade_firmware_init; else that is its error code and the size of the firmware. No result means
-- that EXIT reads through the null pointer of the result.
unfoldable pub firmware_send : SendApi → Option (List Addr) → Option (Err × ℕ) → Queue → Option Sent
firmware_send api none config queue = some (refused mdf_err_invalid_arg)
firmware_send api (some addrs) config queue =
    if length addrs == 0 || get_or addrs 0 0 == addr_empty || ltb api.table_size (length addrs)
    then some (refused mdf_err_invalid_arg)
    else elim config [
      | none ↦ some (refused err_firmware_not_init)
      | some (error_code, total) ↦
          if not (error_code == err_firmware_finish)
          then some (refused err_firmware_incomplete)
          else if not api.result_memory
          then none
          else some (send api addrs total queue)
    ]
