-- ===== src/Mwifi/Lifecycle.antt =====
-- The globals of esp-mdf/components/mwifi/mwifi.c, the functions that set up and take down the
-- component, and the callbacks for the events of the mesh.
use pio_esp_mdf_example.Prelude.{
  ℕ, ◌+◌, ◌*◌, Bool, true, false, not, ◌&&◌, Option, none, some, ltb, leb, ◌==◌, if◌then◌else◌,
}
use pio_esp_mdf_example.Mcommon.Err.{Err, mdf_ok, mdf_err_no_mem, mdf_err_invalid_arg}
use pio_esp_mdf_example.Mwifi.Err.{err_not_init, err_inited, MeshErr}
use pio_esp_mdf_example.Mwifi.Transmit.{Addr}
use pio_esp_mdf_example.Mwifi.Write.{Node}
use pio_esp_mdf_example.Mwifi.Config.{InitConfig, Config, config_valid}

-- MWIFI_WAIVE_ROOT_INTERVAL and MWIFI_EVET_INFO_SIZE
abbrev pub waive_root_interval : ℕ
waive_root_interval = 3

abbrev pub event_info_size : ℕ
event_info_size = 3

-- The globals and the static variables; a configuration is `none` where the pointer is null.
pub record Mwifi : Type 0 where
  pub inited : Bool
  pub connected : Bool
  pub started : Bool
  pub ap_config : Option Config
  pub init_config : Option InitConfig
  pub rootless : Bool
  pub to_ds_status : Bool
  pub waive_timer : Bool
  pub waive_interval : ℕ
  pub waive_count : ℕ
  pub disconnected_count : ℕ
  pub event_index : ℕ

abbrev pub boot : Mwifi
boot = record {
  inited = false;
  connected = false;
  started = false;
  ap_config = none;
  init_config = none;
  rootless = false;
  to_ds_status = false;
  waive_timer = false;
  waive_interval = waive_root_interval;
  waive_count = 0;
  disconnected_count = 0;
  event_index = 0;
}

-- How a function ends; `faults` is an access through a null pointer, and `aborts` a failed
-- ESP_ERROR_CHECK.
pub data Ends {ℓ} (A : Type ℓ) : Type ℓ where
  returns : Err → A → Ends A
  faults : Ends A
  aborts : Ends A

-- mwifi_init; `memory` is whether the two configurations can be allocated, `zero_init` and `zero_ap`
-- are those with all bytes 0, and `mesh_init` is what esp_mesh_init returns.
unfoldable pub mwifi_init :
    Bool → Bool → InitConfig → Config → Err → Mwifi → Option InitConfig → Err × Mwifi
mwifi_init memory memory' zero_init zero_ap mesh_init m none = (mdf_err_invalid_arg, m)
mwifi_init memory memory' zero_init zero_ap mesh_init m (some config) =
    let no_init : Bool = elim m.init_config [ none ↦ not memory | some c ↦ false ] in
    let no_ap : Bool = elim m.ap_config [ none ↦ not memory' | some c ↦ false ] in
    let ap : Config = elim m.ap_config [ none ↦ zero_ap | some c ↦ c ] in
    let old : InitConfig = elim m.init_config [ none ↦ zero_init | some c ↦ c ] in
    if m.inited
    then (err_inited, m)
    else if no_init
    then (mdf_err_no_mem, m)
    else if no_ap
    then (mdf_err_no_mem, record m { init_config = some old })
    else (mesh_init, record m { inited = true; init_config = some config; ap_config = some ap })

-- mwifi_deinit; `mesh_deinit` is what esp_mesh_deinit returns.
unfoldable pub mwifi_deinit : Err → Mwifi → Ends Mwifi
mwifi_deinit mesh_deinit m =
    let freed : Mwifi = record m { inited = false; init_config = none; ap_config = none } in
    if not m.inited
    then returns err_not_init m
    else if mesh_deinit == mdf_ok
    then returns mdf_ok freed
    else aborts

-- A copy to where a global points.
abbrev overwrite : Option InitConfig → InitConfig → Mwifi → Ends Mwifi
overwrite none config m = faults
overwrite (some c) config m = returns mdf_ok (record m { init_config = some config })

abbrev overwrite_ap : Option Config → Config → Mwifi → Ends Mwifi
overwrite_ap none config m = faults
overwrite_ap (some c) config m = returns mdf_ok (record m { ap_config = some config })

unfoldable pub mwifi_set_init_config : Mwifi → Option InitConfig → Ends Mwifi
mwifi_set_init_config m none = returns mdf_err_invalid_arg m
mwifi_set_init_config m (some config) =
    if not m.inited then returns err_not_init m else overwrite m.init_config config m

unfoldable pub mwifi_set_config : Mwifi → Option Config → Ends Mwifi
mwifi_set_config m none = returns (if m.inited then mdf_err_invalid_arg else err_not_init) m
mwifi_set_config m (some config) =
    if not m.inited
    then returns err_not_init m
    else if not (config_valid config)
    then returns mdf_err_invalid_arg m
    else overwrite_ap m.ap_config config m

-- mwifi_get_init_config and mwifi_get_config; `there` is whether the pointer is not null. What they
-- write there is the result.
unfoldable pub mwifi_get_init_config : Mwifi → Bool → Ends (Option InitConfig)
mwifi_get_init_config m there =
    let held : Ends (Option InitConfig) = elim m.init_config [
      | none ↦ faults
      | some c ↦ returns mdf_ok (some c)
    ] in
    if not there
    then returns mdf_err_invalid_arg none
    else if not m.inited
    then returns err_not_init none
    else held

unfoldable pub mwifi_get_config : MeshErr → Mwifi → Bool → Ends (Option Config)
mwifi_get_config codes m there =
    let held : Ends (Option Config) = elim m.ap_config [
      | none ↦ returns codes.not_supported none
      | some c ↦ returns mdf_ok (some c)
    ] in
    if not there then returns mdf_err_invalid_arg none else held

-- mwifi_stop; `mesh_stop` is what esp_mesh_stop returns. The result of esp_wifi_set_mode is only
-- reported.
unfoldable pub mwifi_stop : Err → Mwifi → Err × Mwifi
mwifi_stop mesh_stop m =
    if not m.started then (mdf_ok, m) else (mesh_stop, record m { started = false })

unfoldable pub mwifi_post_root_status : Err → Bool → Mwifi → Err × Mwifi
mwifi_post_root_status post status m = (post, record m { to_ds_status = status })

-- mwifi_get_root_status; `vendor` is what esp_wifi_vnd_mesh_get tells, if it succeeds.
unfoldable pub mwifi_get_root_status : Option Bool → Mwifi → Bool × Mwifi
mwifi_get_root_status vendor m =
    let status : Bool =
      if m.to_ds_status then true else elim vendor [ none ↦ false | some b ↦ b ] in
    (status && not m.rootless, record m { to_ds_status = status })

-- mwifi_waive_root_timer_delete, mwifi_waive_root_timer_create and mwifi_waive_root_timercb. `deleted`,
-- `created` and `running` are the answers of the timer library, and `weak` is whether the root has more
-- than one node and a signal below the bound. The last also tells whether it gives up the root.
unfoldable pub waive_root_timer_delete : Bool → Mwifi → Mwifi
waive_root_timer_delete deleted m = record m {
  waive_timer = if m.waive_timer then not deleted else false;
}

unfoldable pub waive_root_timer_create : Bool → Mwifi → Mwifi
waive_root_timer_create created m = record m { waive_timer = created }

unfoldable pub waive_root_timercb : Bool → Mwifi → Bool × Mwifi
waive_root_timercb weak m =
    let count = if weak then m.waive_count + 1 else 0 in
    let interval = if ltb m.waive_interval 60 then m.waive_interval * 3 else 60 in
    if not m.waive_timer
    then (false, m)
    else if leb m.waive_interval count
    then (true, record m { waive_count = 0; waive_interval = interval })
    else (false, record m { waive_count = count })

-- What mwifi_write reads of the globals; `none` where it would read through a null pointer.
unfoldable pub write_node : Addr → Bool → Bool → Mwifi → Option Node
write_node self_mac compress_memory group_memory m = elim m.init_config [
  | none ↦ none
  | some c ↦ some (record {
    started = m.started;
    rootless = m.rootless;
    data_drop_enable = c.data_drop_enable;
    self_mac = self_mac;
    compress_memory = compress_memory;
    group_memory = group_memory;
  })
]
