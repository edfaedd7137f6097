-- ===== src/Mespnow/Setup.antt =====
-- mespnow_init, mespnow_deinit and mespnow_send_cb of esp-mdf/components/mespnow/mespnow.c.
use pio_esp_mdf_example.Prelude.{
  ℕ, suc, ◌≡◌, ◌≢◌, refl, Bool, true, false, not, List, [], ◌∷◌, Option, none, some, arith,
  if◌then◌else◌,
}
use pio_esp_mdf_example.Mcommon.Err.{Err, mdf_ok}
use pio_esp_mdf_example.Mespnow.State.{QueueData}

-- g_espnow_init_flag, g_event_group with its bits SEND_CB_OK and SEND_CB_FAIL, and g_espnow_queue with
-- what the queues hold; `none` is a null handle.
pub record Radio : Type 0 where
  pub init_flag : Bool
  pub event_group : Option (Bool × Bool)
  pub queues : List (Option (List QueueData))

-- What the system answers: whether the event group and the queue of a pipe can be created, and
-- whether the calls of ESP-NOW succeed. ESP_FAIL and ESP_ERR_ESPNOW_NOT_INIT are codes of the library.
pub record RadioApi : Type 0 where
  pub group_created : Bool
  pub queue_created : ℕ → Bool
  pub calls_ok : Bool
  pub esp_fail : Err
  pub not_init : Err

-- How a function ends: with a code, or by a failed ESP_ERROR_CHECK.
pub data SetUp : Type 0 where
  returns : Err → Radio → SetUp
  aborts : SetUp

-- The loop that creates the queues, over those that are not visited yet: the new handles, and whether
-- all were created.
unfoldable pub create_queues :
    RadioApi → ℕ → List (Option (List QueueData)) → Bool × List (Option (List QueueData))
create_queues api i [] = (true, [])
create_queues api i (q ∷ queues) =
    let (all, rest) = create_queues api (suc i) queues in
    if api.queue_created i then (all, some [] ∷ rest) else (false, none ∷ queues)

unfoldable pub mespnow_init : RadioApi → Radio → SetUp
mespnow_init api r =
    let (all, queues) = create_queues api 0 r.queues in
    let grouped : Radio = record r { event_group = some (false, false) } in
    let queued : Radio = record grouped { queues = queues } in
    let done : Radio = record queued { init_flag = true } in
    if r.init_flag
    then returns mdf_ok r
    else if not api.group_created
    then returns api.esp_fail (record r { event_group = none })
    else if not all
    then returns api.esp_fail queued
    else if not api.calls_ok
    then aborts
    else returns mdf_ok done

abbrev no_queues : List (Option (List QueueData)) → List (Option (List QueueData))
no_queues [] = []
no_queues (q ∷ queues) = none ∷ no_queues queues

-- The items of the queues are received and freed, and then the queues are deleted.
unfoldable pub mespnow_deinit : RadioApi → Radio → SetUp
mespnow_deinit api r =
    let done : Radio = record {
      init_flag = false;
      event_group = none;
      queues = no_queues r.queues;
    } in
    if not r.init_flag
    then returns api.not_init r
    else if not api.calls_ok
    then aborts
    else returns mdf_ok done

-- mespnow_send_cb; `addr` is whether the pointer is not null, and `success` the status. `none` is an
-- access through a null handle.
unfoldable pub mespnow_send_cb : Bool → Bool → Radio → Option Radio
mespnow_send_cb addr success r =
    let set : Option Radio = elim r.event_group [
      | none ↦ none
      | some (ok, fail) ↦
          some (record r { event_group = some (if success then (true, fail) else (ok, true)) })
    ] in
    if not addr then some r else set

-- The state at the start of the program, with a queue for each pipe.
abbrev pub radio_off : Radio
radio_off = record {
  init_flag = false;
  event_group = none;
  queues = none ∷ none ∷ none ∷ none ∷ [];
}

create_queues-no_queues :
    (api : RadioApi) (i : ℕ) (queues : List (Option (List QueueData)))
    → no_queues (create_queues api i queues).1 ≡ no_queues queues
unfolding create_queues
create_queues-no_queues api i [] = refl
create_queues-no_queues api i (q ∷ queues) =
    ground (arith, create_queues-no_queues api (suc i) queues)

-- A set-up that succeeds and is then taken down leaves no handle behind.
mespnow_deinit-mespnow_init :
    (api : RadioApi) (r : Radio)
    → mespnow_init api radio_off ≡ returns mdf_ok r
    → api.calls_ok ≡ true
    → api.esp_fail ≢ mdf_ok
    → mespnow_deinit api r ≡ returns mdf_ok radio_off
unfolding mespnow_init mespnow_deinit
mespnow_deinit-mespnow_init api r started ok error =
    let cleared = create_queues-no_queues api 0 radio_off.queues in
    ground (arith, started, ok, error, cleared)
