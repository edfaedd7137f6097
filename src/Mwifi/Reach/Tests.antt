-- ===== src/Mwifi/Reach/Tests.antt =====
-- Runs of the state of mwifi.c, and its theorems at concrete inputs.
use pio_esp_mdf_example.Prelude.{◌≢◌, refl, true, false, ◌∷◌, some, replicate}
use pio_esp_mdf_example.Mcommon.Err.{mdf_ok}
use pio_esp_mdf_example.Mwifi.Config.{InitConfig, Config}
use pio_esp_mdf_example.Mwifi.Lifecycle.{
  Mwifi, boot, faults, mwifi_init, mwifi_set_init_config, mwifi_set_config, mwifi_get_init_config,
}
use pio_esp_mdf_example.Mwifi.Events.{mesh_started, esp_mesh_event_cb, mesh_event_switch}
use pio_esp_mdf_example.Mwifi.Reach.{step_init, step_mesh, Reach, power_on, next}
use pio_esp_mdf_example.Mwifi.Reach.Sound.{IsSound, Reach-IsSound}
use pio_esp_mdf_example.Mwifi.Reach.Safe.{configs_never_fault}

abbrev settings : InitConfig
settings = record {
  vote_percentage = 90;
  vote_max_count = 15;
  backoff_rssi = 0x88;
  scan_min_count = 10;
  root_conflicts_enable = true;
  root_healing_ms = 6000;
  capacity_num = 512;
  max_layer_deprecated = 0;
  max_connection = 6;
  assoc_expire_ms = 30000;
  beacon_interval_ms = 100;
  passive_scan_ms = 300;
  monitor_duration_ms = 60000;
  cnx_rssi = 0x90;
  select_rssi = 0xa0;
  switch_rssi = 0xa0;
  attempt_count = 60;
  monitor_ie_count = 10;
  xon_qsize = 32;
  retransmit_enable = true;
  data_drop_enable = false;
  max_layer = 16;
  topology = 0;
}

abbrev zeros : Config
zeros = record {
  router_ssid = replicate 32 0;
  router_password = replicate 64 0;
  router_bssid = replicate 6 0;
  mesh_id = replicate 6 0;
  mesh_password = replicate 64 0;
  mesh_type = 0;
  channel = 0;
  channel_switch_disable = 0;
  router_switch_disable = 0;
}

-- A name of 32 letters, and a password of 8.
abbrev long_name : Config
long_name = record zeros {
  router_ssid = replicate 32 0x61;
  router_password = 1 ∷ 2 ∷ 3 ∷ 4 ∷ 5 ∷ 6 ∷ 7 ∷ 8 ∷ replicate 56 0;
  mesh_id = replicate 6 9;
}

abbrev running : Mwifi
running = record boot {
  inited = true;
  started = true;
  ap_config = some zeros;
  init_config = some settings;
  event_index = 1;
}

-- Initialisation, and then the event that the mesh has started.
running-Reach : Reach running
unfolding mwifi_init esp_mesh_event_cb mesh_event_switch
running-Reach =
    next (next power_on (step_init true true settings zeros mdf_ok (some settings) refl))
      (step_mesh true true mesh_started refl)

Reach-IsSound_example : IsSound running
Reach-IsSound_example = Reach-IsSound running-Reach

configs_never_fault_example :
    (mwifi_set_init_config running (some settings) ≢ faults)
    × (mwifi_set_config running (some long_name) ≢ faults)
    × (mwifi_get_init_config running true ≢ faults)
configs_never_fault_example =
    configs_never_fault (some settings) (some long_name) true running-Reach
