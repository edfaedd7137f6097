-- ===== src/Mupgrade/Root.antt =====
-- The lists of devices of esp-mdf/components/mupgrade/mupgrade_root.c: addrs_remove,
-- mupgrade_request_status and mupgrade_result_free.
pub mod Count
use pio_esp_mdf_example.Prelude.{
  ℕ, zero, suc, ◌+◌, Bool, true, false, not, List, [], ◌∷◌, ◌++◌, Option, none, some, ltb, ◌==◌,
  if◌then◌else◌, length,
}
use pio_esp_mdf_example.Mcommon.Err.{Err, mdf_ok, mdf_err_invalid_arg}
use pio_esp_mdf_example.Mupgrade.Err.{err_stop, err_send_packet_loss, err_firmware_incomplete}
use pio_esp_mdf_example.Mupgrade.Progress.{merge, filled, all_written}

-- A MAC address of 6 bytes, as a number. Addresses are only compared and moved.
abbrev pub Addr : Type 0
Addr = ℕ

-- addrs_remove: whether the address was there, and the array without its first occurrence. The
-- length of the list is `*addrs_num`.
unfoldable pub addrs_remove : List Addr → Addr → Bool × List Addr
addrs_remove [] addr = (false, [])
addrs_remove (a ∷ addrs) addr =
    let (found, rest) = addrs_remove addrs addr in
    if a == addr then (true, addrs) else (found, a ∷ rest)

-- mupgrade_result_t
pub record Result : Type 0 where
  pub unfinished : List Addr
  pub successed : List Addr
  pub requested : List Addr

-- A mupgrade_queue_t with the mupgrade_status_t in it.
pub record Report : Type 0 where
  pub src_addr : Addr
  pub error_code : Err
  pub total_size : ℕ
  pub written_size : ℕ
  pub progress_array : List ℕ

-- What successive calls of xQueueReceive answer; `none` is a timeout, and so is the end of the list.
abbrev pub Queue : Type 0
Queue = List (Option Report)

abbrev pub succeed : Result → List Addr → Addr → Result
succeed r unfinished addr = record r {
  unfinished = unfinished;
  successed = r.successed ++ addr ∷ [];
}

-- One report of the first loop of mupgrade_request_status; whether the loop goes on with the next
-- report without looking at the number of unfinished devices.
unfoldable pub note_finished : Result → Report → Bool × Result
note_finished r q =
    let (found, unfinished) = addrs_remove r.unfinished q.src_addr in
    if q.written_size == q.total_size
    then (if not found then (true, r) else (false, succeed r unfinished q.src_addr))
    else if q.error_code == err_stop
    then (false, record r { unfinished = unfinished })
    else (false, r)

-- The first loop, up to a timeout; `true` is the early return of MDF_OK.
unfoldable pub drain_finished : Result → Queue → Bool × Result × Queue
drain_finished r [] = (false, r, [])
drain_finished r (none ∷ queue) = (false, r, queue)
drain_finished r (some q ∷ queue) =
    let (again, r') = note_finished r q in
    let rest = drain_finished r' queue in
    if again then rest else if length r'.unfinished == 0 then (true, r', queue) else rest

-- The variables of the second loop.
pub record Asking : Type 0 where
  pub result : Result
  pub request_addrs : List Addr
  pub progress : List ℕ

-- One report of the second loop.
unfoldable pub note_response : Asking → Report → Asking
note_response s q =
    let (_, unfinished) = addrs_remove s.result.unfinished q.src_addr in
    let (listed, _) = addrs_remove s.result.unfinished q.src_addr in
    let (asked, requests) = addrs_remove s.request_addrs q.src_addr in
    let whole = q.written_size == q.total_size in
    let r =
      if whole
      then s.result
      else record (s.result) { requested = s.result.requested ++ q.src_addr ∷ [] } in
    let s' : Asking = record { result = r; request_addrs = requests; progress = s.progress } in
    if q.error_code == err_stop
    then record s {
      result = record (s.result) { unfinished = unfinished };
      request_addrs = requests;
    }
    else if not asked
    then s
    else if q.written_size == 0
    then record s' { progress = filled 0 }
    else if whole
    then (if not listed then s' else record s' { result = succeed r unfinished q.src_addr })
    else record s' { progress = merge s.progress q.progress_array }

-- The inner loop: reports until all that were asked have answered, or a timeout.
unfoldable pub collect : Asking → Queue → Asking × Queue
collect s [] = (s, [])
collect s (q ∷ queue) =
    let go_on = λ (report : Report). collect (note_response s report) queue in
    if length s.request_addrs == 0
    then (s, q ∷ queue)
    else elim q [ none ↦ (s, queue) | some report ↦ go_on report ]

-- `n` rounds of asking.
unfoldable pub ask : ℕ → Asking → Queue → Asking × Queue
ask zero s queue = (s, queue)
ask (suc n) s queue =
    let (s', queue') = collect s queue in
    let rest = ask n s' queue' in if length s.request_addrs == 0 then (s, queue) else rest

-- What a call of mupgrade_request_status leaves.
pub record Requested : Type 0 where
  pub ret : Err
  pub result : Result
  pub progress : List ℕ
  pub queue : Queue

unfoldable pub request_status : List ℕ → Result → Queue → Requested
request_status progress before queue =
    let (done, r, left) = drain_finished (record before { requested = [] }) queue in
    let (s, left') =
      ask 3 (record { result = r; request_addrs = r.unfinished; progress = filled 0xff }) left in
    let answered = if length s.request_addrs == 0 then mdf_ok else err_send_packet_loss in
    if done
    then record { ret = mdf_ok; result = r; progress = progress; queue = left }
    else record {
      ret = if not (all_written s.progress) then err_firmware_incomplete else answered;
      result = s.result;
      progress = s.progress;
      queue = left';
    }

-- mupgrade_result_free; a null pointer is `none`.
unfoldable pub result_free : Option Result → Err × Option Result
result_free none = (mdf_err_invalid_arg, none)
result_free (some r) = (mdf_ok, some (record { unfinished = []; successed = []; requested = [] }))
