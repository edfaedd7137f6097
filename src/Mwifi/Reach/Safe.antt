-- ===== src/Mwifi/Reach/Safe.antt =====
-- The pointers of mwifi.c to its configurations, and the name of the router.
use pio_esp_mdf_example.Prelude.{
  ℕ, ◌+◌, ◌<◌, ◌≡◌, ◌≢◌, Bool, true, false, List, [], ◌∷◌, ◌++◌, length, Option, none, some, arith,
}
use pio_esp_mdf_example.Mcommon.Err.{Err, mdf_ok}
use pio_esp_mdf_example.Mwifi.Transmit.{Addr}
use pio_esp_mdf_example.Mwifi.Config.{
  InitConfig, Config, strlen, from_router_ssid, from_router_password,
}
use pio_esp_mdf_example.Mwifi.Lifecycle.{
  Mwifi, returns, faults, mwifi_deinit, mwifi_set_init_config, mwifi_set_config,
  mwifi_get_init_config, write_node,
}
use pio_esp_mdf_example.Mwifi.Start.{MeshLimits, start_with, mwifi_start, setup_calls, succeed}
use pio_esp_mdf_example.Mwifi.Reach.{Reach}
use pio_esp_mdf_example.Mwifi.Reach.Sound.{IsSound, Reach-IsSound}

set_init_config_safe :
    (m : Mwifi) (i : Option InitConfig) → IsSound m → mwifi_set_init_config m i ≢ faults
unfolding mwifi_set_init_config
set_init_config_safe m none h = ground arith
set_init_config_safe m (some i) h = ground arith

set_config_safe : (m : Mwifi) (c : Option Config) → IsSound m → mwifi_set_config m c ≢ faults
unfolding mwifi_set_config
set_config_safe m none h = ground arith
set_config_safe m (some c) h = ground arith

get_init_config_safe :
    (m : Mwifi) (there : Bool) → IsSound m → mwifi_get_init_config m there ≢ faults
unfolding mwifi_get_init_config
get_init_config_safe m there h = ground arith

-- In every state that calls of mwifi.c and events lead to from the power-on, mwifi_set_init_config,
-- mwifi_set_config and mwifi_get_init_config, which copy through the pointers without a test of them,
-- never do so through a null pointer.
pub configs_never_fault :
    {m : Mwifi} (i : Option InitConfig) (c : Option Config) (there : Bool)
    → Reach m
    → (mwifi_set_init_config m i ≢ faults)
      × (mwifi_set_config m c ≢ faults)
      × (mwifi_get_init_config m there ≢ faults)
configs_never_fault {m = m} i c there r =
    let h = Reach-IsSound r in
    (set_init_config_safe m i h, set_config_safe m c h, get_init_config_safe m there h)

-- If mwifi_deinit succeeds while the mesh is started, then the component still counts as started: it
-- can be initialised again, but mwifi_start returns MDF_OK without a single call of the mesh library,
-- and mwifi_write reads its configuration through a null pointer.
deinit_keeps_started :
    (limits : MeshLimits) (result : ℕ → Err) (mesh_start : Err) (self_mac : Addr)
    (compress_memory group_memory : Bool) (m m' : Mwifi)
    → m.inited ≡ true
    → m.started ≡ true
    → mwifi_deinit mdf_ok m ≡ returns mdf_ok m'
    → (m'.started ≡ true)
      × (write_node self_mac compress_memory group_memory m' ≡ none)
      × (mwifi_start limits result mesh_start m' ≡ returns mdf_ok [])
unfolding mwifi_deinit write_node mwifi_start
deinit_keeps_started limits result mesh_start self_mac compress_memory group_memory m m' inited
      started done =
    ground arith

-- The bytes of a text without its end.
abbrev pub IsText : List ℕ → Type 0
IsText [] = Unit {0}
IsText (x ∷ xs) = (x ≢ 0) × IsText xs

strlen-append : (xs ys : List ℕ) → IsText xs → strlen (xs ++ ys) ≡ length xs + strlen ys
strlen-append [] ys text = omega arith
strlen-append (x ∷ xs) ys (start, text) = ground (arith, strlen-append xs ys text)

set_config_accepted :
    (m m' : Mwifi) (c : Config)
    → mwifi_set_config m (some c) ≡ returns mdf_ok m'
    → (m'.inited ≡ true)
      × (m'.started ≡ m.started)
      × (m'.init_config ≡ m.init_config)
      × (m'.ap_config ≡ some c)
unfolding mwifi_set_config
set_config_accepted m m' c accepted = ground arith

start_overruns :
    (limits : MeshLimits) (result : ℕ → Err) (mesh_start : Err) (c : Config) (i : InitConfig)
    → succeed result 0 (setup_calls limits i c) ≡ true
    → limits.ssid_room < strlen (from_router_ssid c)
    → start_with limits result mesh_start i c ≡ faults
unfolding start_with
start_overruns limits result mesh_start c i set_up long = ground arith

-- If mwifi_set_config accepts the name of a router that fills its array of 32 bytes, as names of 32
-- letters do, together with a password, then mwifi_start, unless it aborts before, writes the name and
-- the password behind the 32 bytes that the mesh library has for the name.
full_ssid_overruns :
    (limits : MeshLimits) (result : ℕ → Err) (mesh_start : Err) (m m' : Mwifi) (c : Config)
    (i : InitConfig)
    → limits.ssid_room ≡ 32
    → length c.router_ssid ≡ 32
    → IsText c.router_ssid
    → 0 < strlen (from_router_password c)
    → m.started ≡ false
    → m.init_config ≡ some i
    → mwifi_set_config m (some c) ≡ returns mdf_ok m'
    → succeed result 0 (setup_calls limits i c) ≡ true
    → mwifi_start limits result mesh_start m' ≡ faults
unfolding mwifi_start
full_ssid_overruns limits result mesh_start m m' c i room full text password idle known accepted
      set_up =
    let (inited, started, same, held) = set_config_accepted m m' c accepted in
    let len = strlen-append c.router_ssid (from_router_password c) text in
    let over =
      start_overruns limits result mesh_start c i set_up
        (omega (arith, room, full, password, len)) in
    simp (mwifi_start, inited, started, idle, same, known, held) over
