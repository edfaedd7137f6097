-- ===== src/Mwifi/Reach/Sound.antt =====
-- What holds in every state of mwifi.c.
use mathlib.Core.Path.{subst}
use pio_esp_mdf_example.Prelude.{
  ℕ, ◌<◌, ◌≤◌, ◌≡◌, sym, Bool, true, false, not, ◌&&◌, ◌||◌, Option, none, some, ◌==◌, arith,
}
use pio_esp_mdf_example.Mcommon.Err.{Err}
use pio_esp_mdf_example.Mwifi.Config.{InitConfig, Config}
use pio_esp_mdf_example.Mwifi.Lifecycle.{
  Mwifi, returns, mwifi_init, mwifi_deinit, mwifi_set_init_config, mwifi_set_config, mwifi_stop,
  mwifi_post_root_status, mwifi_get_root_status, waive_root_timercb, waive_root_timer_delete,
  waive_root_timer_create,
}
use pio_esp_mdf_example.Mwifi.Events.{
  MeshEvent, parent_connected, parent_disconnected, layer_change, mesh_started, mesh_stopped,
  routing_table_add, routing_table_remove, tods_state, network_state, other, IpEvent, sta_lost_ip,
  sta_got_ip, other_ip, mesh_event_switch, esp_mesh_event_cb, esp_ip_event_cb,
}
use pio_esp_mdf_example.Mwifi.Reach.{
  Step, step_init, step_deinit, step_set_init, step_set, step_stop, step_post_status,
  step_get_status, step_timer, step_mesh, step_ip, Reach, power_on, next,
}

abbrev pub is_some {ℓ} : {A : Type ℓ} → Option A → Bool
is_some none = false
is_some (some x) = true

abbrev pub is_interval : ℕ → Bool
is_interval n = n == 3 || n == 9 || n == 27 || n == 81 || n == 60

-- An initialised component has its two configurations, and the counters stay in their bounds.
abbrev pub IsSound : Mwifi → Type 0
IsSound m =
    ((not m.inited || (is_some m.init_config && is_some m.ap_config)) ≡ true)
    × (is_interval m.waive_interval ≡ true)
    × (m.waive_count < 81)
    × (m.disconnected_count ≤ 101)
    × (m.event_index < 3)

init-IsSound :
    (memory memory' : Bool) (zero_init : InitConfig) (zero_ap : Config) (e : Err) (m : Mwifi)
    (c : Option InitConfig)
    → IsSound m
    → IsSound (mwifi_init memory memory' zero_init zero_ap e m c).1
unfolding mwifi_init
init-IsSound memory memory' zero_init zero_ap e m none h = h
init-IsSound memory memory' zero_init zero_ap e m (some c) h = ground arith

timer-IsSound : (weak : Bool) (m : Mwifi) → IsSound m → IsSound (waive_root_timercb weak m).1
unfolding waive_root_timercb
timer-IsSound weak m h = ground arith

mesh-IsSound :
    (is_root deleted : Bool) (e : MeshEvent) (m : Mwifi)
    → IsSound m
    → IsSound (esp_mesh_event_cb is_root deleted e m).state
unfolding esp_mesh_event_cb mesh_event_switch waive_root_timer_delete
mesh-IsSound is_root deleted parent_connected m h = ground arith
mesh-IsSound is_root deleted parent_disconnected m h = ground arith
mesh-IsSound is_root deleted layer_change m h = ground arith
mesh-IsSound is_root deleted mesh_started m h = ground arith
mesh-IsSound is_root deleted mesh_stopped m h = ground arith
mesh-IsSound is_root deleted routing_table_add m h = ground arith
mesh-IsSound is_root deleted routing_table_remove m h = ground arith
mesh-IsSound is_root deleted (tods_state s) m h = ground arith
mesh-IsSound is_root deleted (network_state s) m h = ground arith
mesh-IsSound is_root deleted (other n) m h = ground arith

ip-IsSound :
    (deleted created : Bool) (e : IpEvent) (m : Mwifi)
    → IsSound m
    → IsSound (esp_ip_event_cb deleted created e m).state
unfolding esp_ip_event_cb waive_root_timer_create waive_root_timer_delete
ip-IsSound deleted created sta_lost_ip m h = h
ip-IsSound deleted created sta_got_ip m h = ground arith
ip-IsSound deleted created other_ip m h = h

deinit-IsSound :
    (e ret : Err) (m m' : Mwifi) → mwifi_deinit e m ≡ returns ret m' → IsSound m → IsSound m'
unfolding mwifi_deinit
deinit-IsSound e ret m m' back h = ground arith

set_init-IsSound :
    (m m' : Mwifi) (c : Option InitConfig) (ret : Err)
    → mwifi_set_init_config m c ≡ returns ret m'
    → IsSound m
    → IsSound m'
unfolding mwifi_set_init_config
set_init-IsSound m m' none ret back h = ground arith
set_init-IsSound m m' (some c) ret back h = ground arith

set-IsSound :
    (m m' : Mwifi) (c : Option Config) (ret : Err)
    → mwifi_set_config m c ≡ returns ret m'
    → IsSound m
    → IsSound m'
unfolding mwifi_set_config
set-IsSound m m' none ret back h = ground arith
set-IsSound m m' (some c) ret back h = ground arith

Step-IsSound : {m m' : Mwifi} → Step m m' → IsSound m → IsSound m'
unfolding mwifi_stop mwifi_post_root_status mwifi_get_root_status
Step-IsSound {m = m} (step_init memory memory' zero_init zero_ap e c same) h =
    subst IsSound (sym same) (init-IsSound memory memory' zero_init zero_ap e m c h)
Step-IsSound {m = m} {m' = m'} (step_deinit e ret same) h = deinit-IsSound e ret m m' same h
Step-IsSound {m = m} {m' = m'} (step_set_init c ret same) h = set_init-IsSound m m' c ret same h
Step-IsSound {m = m} {m' = m'} (step_set c ret same) h = set-IsSound m m' c ret same h
Step-IsSound (step_stop e same) h = ground (arith, same)
Step-IsSound (step_post_status e s same) h = ground (arith, same)
Step-IsSound (step_get_status v same) h = subst IsSound (sym same) h
Step-IsSound {m = m} (step_timer weak same) h = subst IsSound (sym same) (timer-IsSound weak m h)
Step-IsSound {m = m} (step_mesh is_root deleted e same) h =
    subst IsSound (sym same) (mesh-IsSound is_root deleted e m h)
Step-IsSound {m = m} (step_ip deleted created e same) h =
    subst IsSound (sym same) (ip-IsSound deleted created e m h)

-- In every state that calls of mwifi.c and events lead to from the power-on, an initialised component
-- has both configurations, the interval after which the root is given up is 3, 9, 27, 81 or 60, the
-- minutes counted for it are fewer than 81, the disconnections counted are at most 101, and the next
-- buffer for the data of an event is one of the three.
pub Reach-IsSound : {m : Mwifi} → Reach m → IsSound m
Reach-IsSound power_on = ground arith
Reach-IsSound (next r step) = Step-IsSound step (Reach-IsSound r)
