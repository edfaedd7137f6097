-- ===== src/Mconfig/Queue.antt =====
-- esp-mdf/components/mconfig/mconfig_queue.c: a queue for one configuration.
use pio_esp_mdf_example.Prelude.{
  ℕ, ◌≡◌, Bool, true, not, List, Option, none, some, arith, if◌then◌else◌,
}
use pio_esp_mdf_example.Mcommon.Err.{
  Err, mdf_ok, mdf_err_no_mem, mdf_err_invalid_arg, mdf_err_timeout,
}
use pio_esp_mdf_example.Mwifi.Config.{Config}

-- mconfig_data_t; `custom` are the bytes of its union, and an entry of the white list is its bytes.
pub record ConfigData : Type 0 where
  pub config : Config
  pub custom : List ℕ
  pub whitelist : List (List ℕ)

-- g_mconfig_queue: a null handle, or the queue with what it holds.
abbrev pub ConfigQueue : Type 0
ConfigQueue = Option (Option ConfigData)

abbrev held : ConfigQueue → Option ConfigData
held none = none
held (some item) = item

-- mconfig_queue_write; `memory` is whether the copy can be allocated. A queue that is full stays so for
-- the time that the call waits.
unfoldable pub mconfig_queue_write : Bool → ConfigQueue → Option ConfigData → Err × ConfigQueue
mconfig_queue_write memory queue none = (mdf_err_invalid_arg, queue)
mconfig_queue_write memory queue (some c) =
    let sent : Err × ConfigQueue = elim (held queue) [
      | none ↦ (mdf_ok, some (some c))
      | some old ↦ (mdf_err_timeout, some (some old))
    ] in
    if not memory then (mdf_err_no_mem, queue) else sent

-- mconfig_queue_read; the configuration is taken from the queue before its copy is allocated.
unfoldable pub mconfig_queue_read : Bool → ConfigQueue → Err × Option ConfigData × ConfigQueue
mconfig_queue_read memory queue =
    let copy = λ (c : ConfigData).
      let out : Err × Option ConfigData × ConfigQueue =
        if memory then (mdf_ok, some c, some none) else (mdf_err_no_mem, none, some none) in
      out in
    elim (held queue) [ none ↦ (mdf_err_timeout, none, some none) | some c ↦ copy c ]

-- What was written with success is what the next read gives.
mconfig_queue_read-mconfig_queue_write :
    (memory : Bool) (queue : ConfigQueue) (c : ConfigData)
    → (mconfig_queue_write memory queue (some c)).0 ≡ mdf_ok
    → mconfig_queue_read true (mconfig_queue_write memory queue (some c)).1
      ≡ (mdf_ok, some c, some none)
unfolding mconfig_queue_write mconfig_queue_read
mconfig_queue_read-mconfig_queue_write memory none c ok = ground arith
mconfig_queue_read-mconfig_queue_write memory (some none) c ok = ground arith
mconfig_queue_read-mconfig_queue_write memory (some (some old)) c ok = ground arith
