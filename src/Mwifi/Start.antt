-- ===== src/Mwifi/Start.antt =====
-- mwifi_start and mwifi_restart of esp-mdf/components/mwifi/mwifi.c: the settings that go to the mesh
-- library, in their order. The build is that of sdkconfig.esp32dev: no power save, encrypted mesh IE.
use pio_esp_mdf_example.Prelude.{
  ℕ, ◌+◌, ◌/◌, Bool, true, false, not, List, [], ◌∷◌, ◌++◌, Option, none, some, take, length, ltb,
  ◌==◌, if◌then◌else◌,
}
use pio_esp_mdf_example.Mcommon.Err.{Err, mdf_ok}
use pio_esp_mdf_example.Mwifi.Err.{err_not_init, err_no_config}
use pio_esp_mdf_example.Mwifi.Config.{
  InitConfig, Config, strlen, from_router_ssid, from_mesh_password,
}
use pio_esp_mdf_example.Mwifi.Lifecycle.{Mwifi, Ends, returns, faults, aborts, mwifi_stop}

-- The fields of mesh_cfg_t that the function sets.
pub record MeshConfig : Type 0 where
  pub channel : ℕ
  pub allow_channel_switch : Bool
  pub ssid : List ℕ
  pub ssid_len : ℕ
  pub bssid : List ℕ
  pub allow_router_switch : Bool
  pub router_password : List ℕ
  pub mesh_id : List ℕ
  pub mesh_password : Option (List ℕ)
  pub max_connection : ℕ

-- The calls of the library; the vote percentage is divided by 100 before it is passed.
pub data MeshCall : Type 0 where
  init : MeshCall
  fix_root : MeshCall
  set_type : ℕ → MeshCall
  register_ip_events : MeshCall
  register_mesh_events : MeshCall
  set_attempts : ℕ → ℕ → ℕ → ℕ → MeshCall
  set_vote_percentage : ℕ → MeshCall
  set_root_healing_delay : ℕ → MeshCall
  allow_root_conflicts : Bool → MeshCall
  set_topology : ℕ → MeshCall
  set_max_layer : ℕ → MeshCall
  set_capacity_num : ℕ → MeshCall
  set_switch_parent_paras : ℕ → ℕ → ℕ → ℕ → ℕ → MeshCall
  set_ap_assoc_expire : ℕ → MeshCall
  set_beacon_interval : ℕ → MeshCall
  set_passive_scan_time : ℕ → MeshCall
  set_xon_qsize : ℕ → MeshCall
  disable_ps : MeshCall
  set_ap_authmode : Bool → MeshCall
  set_rssi_threshold : MeshCall
  set_config : MeshConfig → MeshCall

-- What the library defines: MESH_NODE, MESH_IDLE, and the room for the name of the router.
pub record MeshLimits : Type 0 where
  pub mesh_node : ℕ
  pub mesh_idle : ℕ
  pub ssid_room : ℕ

abbrev type_calls : MeshLimits → ℕ → List MeshCall
type_calls limits t =
    if t == limits.mesh_node
    then fix_root ∷ []
    else if t == limits.mesh_idle
    then []
    else set_type t ∷ []

-- The calls before the name of the router is copied.
unfoldable pub setup_calls : MeshLimits → InitConfig → Config → List MeshCall
setup_calls limits i c =
    (init ∷ [])
    ++ type_calls limits c.mesh_type
    ++ (register_ip_events
        ∷ register_mesh_events
        ∷ set_attempts i.vote_max_count i.scan_min_count i.attempt_count i.monitor_ie_count
        ∷ set_vote_percentage i.vote_percentage
        ∷ set_root_healing_delay i.root_healing_ms
        ∷ allow_root_conflicts i.root_conflicts_enable
        ∷ set_topology i.topology
        ∷ set_max_layer i.max_layer
        ∷ set_capacity_num i.capacity_num
        ∷ set_switch_parent_paras i.monitor_duration_ms i.backoff_rssi i.cnx_rssi i.select_rssi
            i.switch_rssi
        ∷ set_ap_assoc_expire (i.assoc_expire_ms / 1000)
        ∷ set_beacon_interval i.beacon_interval_ms
        ∷ set_passive_scan_time i.passive_scan_ms
        ∷ set_xon_qsize i.xon_qsize
        ∷ disable_ps
        ∷ [])

unfoldable pub mesh_config : InitConfig → Config → MeshConfig
mesh_config i c = record {
  channel = c.channel;
  allow_channel_switch = c.channel_switch_disable == 0;
  ssid = take (strlen (from_router_ssid c)) (from_router_ssid c);
  ssid_len = strlen (from_router_ssid c);
  bssid = c.router_bssid;
  allow_router_switch = c.router_switch_disable == 0;
  router_password = c.router_password;
  mesh_id = c.mesh_id;
  mesh_password = if strlen (from_mesh_password c) == 0 then none else some c.mesh_password;
  max_connection = i.max_connection;
}

abbrev pub config_calls : InitConfig → Config → List MeshCall
config_calls i c =
    set_ap_authmode (not (strlen (from_mesh_password c) == 0))
    ∷ set_rssi_threshold
    ∷ set_config (mesh_config i c)
    ∷ []

-- Whether each of the calls from number `k` on succeeds; the first that fails aborts the program.
unfoldable pub succeed : (ℕ → Err) → ℕ → List MeshCall → Bool
succeed result k [] = true
succeed result k (c ∷ calls) =
    let rest = succeed result (k + 1) calls in if result k == mdf_ok then rest else false

-- The start with its two configurations: the calls that were made, and what esp_mesh_start returns.
-- A name that is longer than its room is written behind the end: also that faults.
unfoldable pub start_with :
    MeshLimits → (ℕ → Err) → Err → InitConfig → Config → Ends (List MeshCall)
start_with limits result mesh_start i c =
    let before = setup_calls limits i c in
    if not (succeed result 0 before)
    then aborts
    else if ltb limits.ssid_room (strlen (from_router_ssid c))
    then faults
    else if not (succeed result (length before) (config_calls i c))
    then aborts
    else returns mesh_start (before ++ config_calls i c)

unfoldable pub mwifi_start : MeshLimits → (ℕ → Err) → Err → Mwifi → Ends (List MeshCall)
mwifi_start limits result mesh_start m =
    let configured : Ends (List MeshCall) = elim m.ap_config [
      | none ↦ returns err_no_config []
      | some c ↦ elim m.init_config [
        | none ↦ faults
        | some i ↦ start_with limits result mesh_start i c
      ]
    ] in
    if m.started
    then returns mdf_ok []
    else if not m.inited
    then returns err_not_init []
    else configured

-- mwifi_restart; the second part is the state after mwifi_stop.
unfoldable pub mwifi_restart :
    MeshLimits → (ℕ → Err) → Err → Err → Mwifi → Ends (List MeshCall) × Mwifi
mwifi_restart limits result mesh_stop mesh_start m =
    let (stopped, m') = mwifi_stop mesh_stop m in
    if not (stopped == mdf_ok)
    then (returns stopped [], m')
    else (mwifi_start limits result mesh_start m', m')
