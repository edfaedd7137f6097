-- ===== src/Mupgrade/Node/Tests.antt =====
-- Runs of the upgraded device, and its theorems at concrete inputs.
use pio_esp_mdf_example.Prelude.{ℕ, ◌≡◌, refl, true, false, List, [], ◌∷◌, none, some, arith}
use pio_esp_mdf_example.Mcommon.Err.{mdf_ok, mdf_fail}
use pio_esp_mdf_example.Mupgrade.Progress.{get_bit, set_bit, filled}
use pio_esp_mdf_example.Mupgrade.Node.{
  Status, Config, Node, NodeApi, Effect, mupgrade_stop, stopped, status_size, info_erase, send,
}
use pio_esp_mdf_example.Mupgrade.Node.Write.{
  Packet, note_written, write_configured, mupgrade_write, progress_report,
}
use pio_esp_mdf_example.Mupgrade.Node.Whole.{boots}
use pio_esp_mdf_example.Mupgrade.Node.Boot.{run, run_never_faults, run-boots}
use pio_esp_mdf_example.Mupgrade.Node.Keeps.{IsInFlash, AllPackets}
use pio_esp_mdf_example.Mupgrade.Node.Stop.{stop-write}

-- A firmware of 5 bytes, which is one packet.
abbrev status : Status
status = record {
  name = 65 ∷ [];
  error_code = mdf_ok;
  total_size = 5;
  written_size = 0;
  progress_array = filled 0;
}

abbrev config : Config
config = record { partition = some 0; status = status }

abbrev node : Node
node = record { config = some config; finished = false; next_percentage = 10 }

abbrev api : NodeApi
api = record {
  memory = true;
  load = (mdf_ok, config);
  root = false;
  running = some 1;
  update = some 0;
  boot = mdf_ok;
  boot_running = mdf_ok;
  begin = mdf_ok;
  save = mdf_ok;
  write = λ partition offset bytes. mdf_ok;
  sent = mdf_ok;
}

abbrev image : ℕ → List ℕ
image seq = 1 ∷ 2 ∷ 3 ∷ 4 ∷ 5 ∷ []

abbrev packet : Packet
packet = record { seq = 0; size = 5; bytes = image 0 }

-- The write to the flash fails the first time, and the packet comes again, and then twice.
abbrev steps : List (NodeApi × Packet)
steps =
    (record api { write = λ partition offset bytes. mdf_fail }, packet)
    ∷ (api, packet)
    ∷ (api, packet)
    ∷ []

all_packets : AllPackets image 5 steps
all_packets =
    (((omega arith, refl), refl), (((omega arith, refl), refl), (((omega arith, refl), refl), tt)))

-- Packets that are not of the firmware: behind its end, and at its end without bytes.
abbrev stray_steps : List (NodeApi × Packet)
stray_steps =
    (api, record { seq = 4096; size = 5; bytes = image 0 })
    ∷ (api, record { seq = 0; size = 3; bytes = [] })
    ∷ (api, record { seq = 0; size = 3; bytes = [] })
    ∷ []

run_never_faults_example : (out : Node × List Effect) × (run node stray_steps ≡ some out)
run_never_faults_example =
    run_never_faults stray_steps node config refl (omega arith) (omega arith) refl
      (λ e. ground (arith, e))

abbrev outcome : Node × List Effect
outcome = elim (run node steps) [ none ↦ (node, []) | some out ↦ out ]

run-outcome : run node steps ≡ some outcome
unfolding run mupgrade_write write_configured note_written progress_report get_bit set_bit
run-outcome = refl

boots-outcome : boots outcome.1 ≡ true
unfolding run mupgrade_write write_configured note_written progress_report get_bit set_bit
boots-outcome = refl

run-boots_example : IsInFlash image outcome.1 0
run-boots_example =
    run-boots image 5 (omega arith) (omega arith) steps node config refl refl refl refl all_packets
      run-outcome boots-outcome 0 (omega arith)

stop-write_example :
    mupgrade_write api (mupgrade_stop api node).node packet
    ≡ some (record {
      ret = mdf_ok;
      node = (mupgrade_stop api node).node;
      effects = info_erase ∷ send (stopped status) status_size ∷ [];
    })
stop-write_example = stop-write api api node config packet refl refl
