-- ===== src/Mwifi/Events.antt =====
-- esp_ip_event_cb and esp_mesh_event_cb of esp-mdf/components/mwifi/mwifi.c.
use pio_esp_mdf_example.Prelude.{
  ℕ, ◌+◌, ◌%◌, Bool, true, false, ◌&&◌, List, [], ◌∷◌, ◌++◌, ltb, if◌then◌else◌,
}
use pio_esp_mdf_example.Mwifi.Lifecycle.{
  Mwifi, waive_root_interval, event_info_size, waive_root_timer_delete, waive_root_timer_create,
}

-- The events that the callbacks know, with what they read of their data; `other` are the rest.
pub data MeshEvent : Type 0 where
  parent_connected : MeshEvent
  parent_disconnected : MeshEvent
  layer_change : MeshEvent
  mesh_started : MeshEvent
  mesh_stopped : MeshEvent
  routing_table_add : MeshEvent
  routing_table_remove : MeshEvent
  tods_state : Bool → MeshEvent
  network_state : Bool → MeshEvent
  other : ℕ → MeshEvent

pub data IpEvent : Type 0 where
  sta_lost_ip : IpEvent
  sta_got_ip : IpEvent
  other_ip : IpEvent

-- What goes to mdf_event_loop_send: MDF_EVENT_MWIFI_EXCEPTION, those for the address of
-- the root, or an event with the number of the
-- buffer that holds its data.
pub data Post : Type 0 where
  exception : Post
  root_lost_ip : Post
  root_got_ip : Post
  unreachable : ℕ → Post
  forwarded : MeshEvent → ℕ → Post

-- The state, what was sent, and whether esp_mesh_waive_root was called.
pub record Handled : Type 0 where
  pub state : Mwifi
  pub posts : List Post
  pub waived : Bool

-- The switch of esp_mesh_event_cb; `is_root` is what esp_mesh_is_root answers.
unfoldable pub mesh_event_switch : Bool → Bool → MeshEvent → Mwifi → Handled
mesh_event_switch is_root deleted parent_connected m = record {
  state = record m {
    connected = true;
    disconnected_count = 0;
    rootless = if is_root then false else m.rootless;
  };
  posts = [];
  waived = false;
}
mesh_event_switch is_root deleted parent_disconnected m =
    let many = ltb 100 m.disconnected_count in
    record {
      state = record m {
        connected = false;
        disconnected_count = if many then 0 else m.disconnected_count + 1;
      };
      posts = if many then exception ∷ [] else [];
      waived = many && is_root;
    }
mesh_event_switch is_root deleted layer_change m = record {
  state = if is_root then m else waive_root_timer_delete deleted m;
  posts = [];
  waived = false;
}
mesh_event_switch is_root deleted mesh_started m = record {
  state = record m { disconnected_count = 0; started = true };
  posts = [];
  waived = false;
}
mesh_event_switch is_root deleted mesh_stopped m = record {
  state = record m { started = false; connected = false };
  posts = [];
  waived = false;
}
mesh_event_switch is_root deleted routing_table_add m = record {
  state = record m { waive_interval = waive_root_interval };
  posts = [];
  waived = false;
}
mesh_event_switch is_root deleted routing_table_remove m = record {
  state = m;
  posts = [];
  waived = false;
}
mesh_event_switch is_root deleted (tods_state s) m = record {
  state = record m { to_ds_status = s };
  posts = [];
  waived = false;
}
mesh_event_switch is_root deleted (network_state s) m = record {
  state = record m {
    rootless = s;
    to_ds_status = if s then false else m.to_ds_status;
    event_index = (m.event_index + 1) % event_info_size;
  };
  posts = if s then unreachable m.event_index ∷ [] else [];
  waived = false;
}
mesh_event_switch is_root deleted (other n) m = record { state = m; posts = []; waived = false }

-- The whole callback: the event itself is sent at the end.
unfoldable pub esp_mesh_event_cb : Bool → Bool → MeshEvent → Mwifi → Handled
esp_mesh_event_cb is_root deleted event m =
    let h = mesh_event_switch is_root deleted event m in
    record {
      state = record (h.state) { event_index = (h.state.event_index + 1) % event_info_size };
      posts = h.posts ++ (forwarded event h.state.event_index ∷ []);
      waived = h.waived;
    }

-- esp_ip_event_cb; a root that loses its address also leaves the mesh, by esp_mesh_disconnect.
pub record IpHandled : Type 0 where
  pub state : Mwifi
  pub posts : List Post
  pub disconnected : Bool

unfoldable pub esp_ip_event_cb : Bool → Bool → IpEvent → Mwifi → IpHandled
esp_ip_event_cb deleted created sta_lost_ip m = record {
  state = m;
  posts = root_lost_ip ∷ [];
  disconnected = true;
}
esp_ip_event_cb deleted created sta_got_ip m = record {
  state = waive_root_timer_create created (waive_root_timer_delete deleted m);
  posts = root_got_ip ∷ [];
  disconnected = false;
}
esp_ip_event_cb deleted created other_ip m = record { state = m; posts = []; disconnected = false }
