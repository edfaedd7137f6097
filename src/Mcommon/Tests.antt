-- ===== src/Mcommon/Tests.antt =====
-- The theorems of the mcommon component at concrete inputs.
use pio_esp_mdf_example.Prelude.{ℕ, ◌≡◌, refl, true, List, [], ◌∷◌, ◌++◌, none, some, arith, drop}
use pio_esp_mdf_example.Mcommon.Mem.{Mem, mem_add_record, mem_remove_record, put, clear}
use pio_esp_mdf_example.Mcommon.EventLoop.{EventData, Loop}
use pio_esp_mdf_example.Mcommon.EventLoop.Order.{send_all, send_all-drop}

abbrev event : ℕ → EventData
event n = record { event = n; ctx = 0 }

abbrev first_events : List EventData
first_events =
    event 0
    ∷ event 1
    ∷ event 2
    ∷ event 3
    ∷ event 4
    ∷ event 5
    ∷ event 6
    ∷ event 7
    ∷ event 8
    ∷ event 9
    ∷ []

abbrev loop : Loop
loop = record { queue = some (first_events ++ first_events); handler = some 1 }

send_all-drop_example :
    (send_all loop (event 10 ∷ event 11 ∷ [])).queue
    ≡ some (drop 2 ((first_events ++ first_events) ++ event 10 ∷ event 11 ∷ []))
send_all-drop_example =
    send_all-drop loop (first_events ++ first_events) (event 10 ∷ event 11 ∷ []) refl (omega arith)

abbrev empty : Mem
empty = record { count = 0; table = none }

-- The record that was added is found and removed.
removed_run : (mem_remove_record (mem_add_record empty 64 8 true) 64).count ≡ 0
unfolding mem_remove_record mem_add_record put clear
removed_run = refl
