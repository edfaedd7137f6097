-- ===== src/Mcommon/EventLoop.antt =====
-- The event loop: esp-mdf/components/mcommon/mdf_event_loop.c. A callback is its address; an event
-- is its number with the address of its data. The task and the timers are calls of FreeRTOS: a step of
-- the task and of a timer is a function here.
pub mod Order
use pio_esp_mdf_example.Prelude.{
  ℕ, ◌+◌, Bool, true, false, not, List, [], ◌∷◌, ◌++◌, Option, none, some, leb, ltb, ◌==◌,
  if◌then◌else◌, length,
}
use pio_esp_mdf_example.Mcommon.Err.{
  Err, mdf_ok, mdf_fail, mdf_err_no_mem, mdf_err_invalid_arg, mdf_err_not_supported,
  mdf_err_not_init,
}

-- mdf_event_loop_data_t
pub record EventData : Type 0 where
  pub event : ℕ
  pub ctx : ℕ

-- g_event_queue_handle, with what is in the queue, and g_event_handler_cb
pub record Loop : Type 0 where
  pub queue : Option (List EventData)
  pub handler : Option ℕ

-- CONFIG_EVENT_QUEUE_NUM, the length of the queue
abbrev pub event_queue_num : ℕ
event_queue_num = 20

-- A full queue loses its front item, and xQueueSend adds the event behind the others.
unfoldable pub push : List EventData → EventData → List EventData
push [] e = e ∷ []
push (x ∷ xs) e = if ltb (length (x ∷ xs)) event_queue_num then (x ∷ xs) ++ e ∷ [] else xs ++ e ∷ []

-- mdf_event_loop_send, and what the timer of mdf_event_loop_delay_send does when it fires.
unfoldable pub event_loop_send : Loop → EventData → Err × Loop
event_loop_send loop e = elim (loop.queue) [
  | none ↦ (mdf_err_not_init, loop)
  | some items ↦ (mdf_ok, record loop { queue = some (push items e) })
]

-- mdf_event_loop_delay_send; a timer that was started is the last component.
unfoldable pub event_loop_delay_send : Loop → EventData → ℕ → Bool → Err × Loop × Option EventData
event_loop_delay_send loop e delay_ticks memory = elim (loop.queue) [
  | none ↦ (mdf_err_not_init, loop, none)
  | some items ↦
      if delay_ticks == 0
      then (mdf_ok, record loop { queue = some (push items e) }, none)
      else if not memory
      then (mdf_err_no_mem, loop, none)
      else (mdf_ok, loop, some e)
]

-- mdf_event_loop: the handler is called at once, and `answer` is what it returns.
unfoldable pub event_loop : Loop → (ℕ → EventData → Err) → EventData → Err
event_loop loop answer e = elim (loop.queue) [
  | none ↦ mdf_err_not_init
  | some items ↦ elim (loop.handler) [ none ↦ mdf_err_not_init | some cb ↦ answer cb e ]
]

-- One turn of mdf_event_loop_task: the call of the handler, if there is one, and the queue after it.
unfoldable pub task_step : Loop → Option (ℕ × EventData) × Loop
task_step loop = elim (loop.queue) [
  | none ↦ (none, loop)
  | some items ↦ elim items [
    | [] ↦ (none, loop)
    | e ∷ rest ↦
        let loop' : Loop = record loop { queue = some rest } in
        elim (loop.handler) [ none ↦ (none, loop') | some cb ↦ (some (cb, e), loop') ]
  ]
]

-- mdf_event_loop_set returns the old handler.
unfoldable pub event_loop_set : Loop → Option ℕ → Option ℕ × Loop
event_loop_set loop cb = (loop.handler, record loop { handler = cb })

unfoldable pub event_loop_init : Loop → Option ℕ → Err × Loop
event_loop_init loop cb = elim (loop.queue) [
  | some items ↦ (mdf_err_not_supported, loop)
  | none ↦ elim cb [
    | none ↦ (mdf_err_invalid_arg, loop)
    | some f ↦ (mdf_ok, record { queue = some []; handler = some f })
  ]
]

unfoldable pub event_loop_deinit : Loop → Err × Loop
event_loop_deinit loop = elim (loop.queue) [
  | none ↦ (mdf_err_not_init, loop)
  | some items ↦ (mdf_ok, record { queue = none; handler = none })
]
