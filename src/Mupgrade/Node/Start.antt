-- ===== src/Mupgrade/Node/Start.antt =====
-- What mupgrade_status leaves when an upgrade starts.
use pio_esp_mdf_example.Prelude.{◌≡◌, Bool, false, ◌&&◌, some, arith, ◌==◌}
use pio_esp_mdf_example.Mupgrade.Progress.{filled}
use pio_esp_mdf_example.Mupgrade.Node.{
  Status, Config, Node, NodeApi, Done, configured, same_name, begin_upgrade, answer,
  mupgrade_status,
}

begin_upgrade_fresh :
    (api : NodeApi) (finished : Bool) (c : Config) (status : Status)
    → api.root ≡ false
    → (same_name c.status.name status.name && c.status.total_size == status.total_size) ≡ false
    → ((begin_upgrade api finished c status).config.status.total_size ≡ status.total_size)
      × ((begin_upgrade api finished c status).config.status.written_size ≡ 0)
      × ((begin_upgrade api finished c status).config.status.progress_array ≡ filled 0)
      × ((begin_upgrade api finished c status).finished ≡ false)
unfolding begin_upgrade
begin_upgrade_fresh api finished c status inner other =
    (ground arith, ground arith, ground arith, ground arith)

-- If the status of another firmware than the last one comes to a device that is neither the root nor a
-- station, then it starts from nothing, whatever fails: the size is that of the new firmware, no packet
-- counts as written, and no firmware as finished.
status_starts_fresh :
    (api : NodeApi) (node : Node) (c c' : Config) (status : Status) (d : Done)
    → configured api node ≡ some c
    → api.root ≡ false
    → (same_name c.status.name status.name && c.status.total_size == status.total_size) ≡ false
    → mupgrade_status api node status ≡ some d
    → d.node.config ≡ some c'
    → (c'.status.total_size ≡ status.total_size)
      × (c'.status.written_size ≡ 0)
      × (c'.status.progress_array ≡ filled 0)
      × (d.node.finished ≡ false)
unfolding mupgrade_status answer
status_starts_fresh api node c c' status d there inner other ran e =
    let fresh = begin_upgrade_fresh api node.finished c status inner other in
    (
      ground (arith, there, ran, e, fresh.0),
      ground (arith, there, ran, e, fresh.1),
      ground (arith, there, ran, e, fresh.2),
      ground (arith, there, ran, e, fresh.3),
    )
