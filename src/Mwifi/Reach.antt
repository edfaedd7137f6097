-- ===== src/Mwifi/Reach.antt =====
-- The states that the calls of mwifi.c and the events of the mesh lead to, from the power-on.
pub mod Sound
pub mod Safe
mod Tests
use pio_esp_mdf_example.Prelude.{ℕ, Bool, ◌≡◌, Option}
use pio_esp_mdf_example.Mcommon.Err.{Err}
use pio_esp_mdf_example.Mwifi.Config.{InitConfig, Config}
use pio_esp_mdf_example.Mwifi.Lifecycle.{
  Mwifi, boot, Ends, returns, mwifi_init, mwifi_deinit, mwifi_set_init_config, mwifi_set_config,
  mwifi_stop, mwifi_post_root_status, mwifi_get_root_status, waive_root_timercb,
}
use pio_esp_mdf_example.Mwifi.Events.{
  MeshEvent, IpEvent, Handled, IpHandled, esp_mesh_event_cb, esp_ip_event_cb,
}

-- One call or one event, in the state `m`. mwifi_start and the functions that read a configuration
-- leave the state as it is, and mwifi_restart is mwifi_stop and then mwifi_start.
pub data Step (m m' : Mwifi) : Type 0 where
  step_init :
      (memory memory' : Bool) (zero_init : InitConfig) (zero_ap : Config) (e : Err)
      (c : Option InitConfig)
      → m' ≡ (mwifi_init memory memory' zero_init zero_ap e m c).1
      → Step m m'
  step_deinit : (e ret : Err) → mwifi_deinit e m ≡ returns ret m' → Step m m'
  step_set_init :
      (c : Option InitConfig) (ret : Err) → mwifi_set_init_config m c ≡ returns ret m' → Step m m'
  step_set : (c : Option Config) (ret : Err) → mwifi_set_config m c ≡ returns ret m' → Step m m'
  step_stop : (e : Err) → m' ≡ (mwifi_stop e m).1 → Step m m'
  step_post_status : (e : Err) (s : Bool) → m' ≡ (mwifi_post_root_status e s m).1 → Step m m'
  step_get_status : (v : Option Bool) → m' ≡ (mwifi_get_root_status v m).1 → Step m m'
  step_timer : (weak : Bool) → m' ≡ (waive_root_timercb weak m).1 → Step m m'
  step_mesh :
      (is_root deleted : Bool) (e : MeshEvent)
      → m' ≡ (esp_mesh_event_cb is_root deleted e m).state
      → Step m m'
  step_ip :
      (deleted created : Bool) (e : IpEvent)
      → m' ≡ (esp_ip_event_cb deleted created e m).state
      → Step m m'

pub data Reach : Mwifi → Type 0 where
  power_on : Reach boot
  next : {m m' : Mwifi} → Reach m → Step m m' → Reach m'
