-- ===== src/Mwifi/Config.antt =====
-- The configurations of esp-mdf/components/mwifi/include/mwifi.h, and the tests of mwifi_set_config.
use pio_esp_mdf_example.Prelude.{
  ℕ, suc, Bool, true, not, ◌&&◌, ◌||◌, List, [], ◌∷◌, ◌++◌, ltb, leb, ◌==◌, if◌then◌else◌,
}

-- mwifi_init_config_t; a signed number is its bit pattern.
pub record InitConfig : Type 0 where
  pub vote_percentage : ℕ
  pub vote_max_count : ℕ
  pub backoff_rssi : ℕ
  pub scan_min_count : ℕ
  pub root_conflicts_enable : Bool
  pub root_healing_ms : ℕ
  pub capacity_num : ℕ
  pub max_layer_deprecated : ℕ
  pub max_connection : ℕ
  pub assoc_expire_ms : ℕ
  pub beacon_interval_ms : ℕ
  pub passive_scan_ms : ℕ
  pub monitor_duration_ms : ℕ
  pub cnx_rssi : ℕ
  pub select_rssi : ℕ
  pub switch_rssi : ℕ
  pub attempt_count : ℕ
  pub monitor_ie_count : ℕ
  pub xon_qsize : ℕ
  pub retransmit_enable : Bool
  pub data_drop_enable : Bool
  pub max_layer : ℕ
  pub topology : ℕ

-- mwifi_config_t; the lists are the bytes of the arrays: 32, 64, 6, 6 and 64.
pub record Config : Type 0 where
  pub router_ssid : List ℕ
  pub router_password : List ℕ
  pub router_bssid : List ℕ
  pub mesh_id : List ℕ
  pub mesh_password : List ℕ
  pub mesh_type : ℕ
  pub channel : ℕ
  pub channel_switch_disable : ℕ
  pub router_switch_disable : ℕ

-- strlen: the bytes before the first 0.
abbrev pub strlen : List ℕ → ℕ
strlen [] = 0
strlen (x ∷ xs) = if x == 0 then 0 else suc (strlen xs)

-- The bytes of the structure from a string on: its fields are bytes, one after the other, and strlen
-- goes on into the next field where a string has no end.
abbrev pub from_mesh_password : Config → List ℕ
from_mesh_password c =
    c.mesh_password
    ++ (c.mesh_type ∷ c.channel ∷ c.channel_switch_disable ∷ c.router_switch_disable ∷ [])

abbrev pub from_router_password : Config → List ℕ
from_router_password c =
    c.router_password ++ (c.router_bssid ++ (c.mesh_id ++ from_mesh_password c))

abbrev pub from_router_ssid : Config → List ℕ
from_router_ssid c = c.router_ssid ++ from_router_password c

-- MWIFI_ADDR_IS_EMPTY
abbrev pub is_empty : List ℕ → Bool
is_empty [] = true
is_empty (x ∷ xs) = x == 0 && is_empty xs

abbrev pub password_fits : ℕ → Bool
password_fits len = len == 0 || (leb 8 len && ltb len 64)

-- The checks of mwifi_set_config on the configuration.
unfoldable pub config_valid : Config → Bool
config_valid c =
    not (is_empty c.mesh_id)
    && leb c.channel 14
    && not (strlen (from_router_ssid c) == 0 && c.mesh_type == 0)
    && password_fits (strlen (from_router_password c))
    && password_fits (strlen (from_mesh_password c))
