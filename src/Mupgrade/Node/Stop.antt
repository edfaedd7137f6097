-- ===== src/Mupgrade/Node/Stop.antt =====
-- What a device does after mupgrade_stop, and with a packet behind the end of the firmware.
use pio_esp_mdf_example.Prelude.{
  ◌+◌, ◌*◌, ◌%◌, ◌^◌, ◌≡◌, ◌≢◌, false, not, ◌&&◌, [], ◌∷◌, some, arith, ◌==◌, take,
}
use pio_esp_mdf_example.Mcommon.Err.{mdf_ok}
use pio_esp_mdf_example.Mupgrade.Err.{err_stop}
use pio_esp_mdf_example.Mupgrade.Progress.{get_bit}
use pio_esp_mdf_example.Mupgrade.Node.{
  Config, Node, NodeApi, Done, mupgrade_stop, stopped, status_size, info_erase, send,
}
use pio_esp_mdf_example.Mupgrade.Node.Write.{
  Packet, noted, note_written, write_configured, mupgrade_write,
}

-- After mupgrade_stop, if the running image could be set to boot again where that was needed, a packet
-- of the firmware leaves the flash and the boot partition alone: it only erases the stored
-- configuration and answers the root that the upgrade is stopped, and the device stays stopped.
pub stop-write :
    (api api' : NodeApi) (node : Node) (c : Config) (p : Packet)
    → node.config ≡ some c
    → (node.finished && not (api.boot_running == mdf_ok)) ≡ false
    → (mupgrade_write api' (mupgrade_stop api node).node p)
      ≡ some (record {
        ret = api'.sent;
        node = (mupgrade_stop api node).node;
        effects = info_erase ∷ send (stopped c.status) status_size ∷ [];
      })
unfolding mupgrade_write mupgrade_stop write_configured
stop-write api api' node c p e restored = ground arith

-- The bound on the sequence number admits one too many: a packet that starts where the firmware ends
-- is written to the flash behind it, and counts as a part of the firmware.
past_end_written :
    (api : NodeApi) (node : Node) (c : Config) (p : Packet) {d : Done}
    → node.config ≡ some c
    → c.status.error_code ≢ err_stop
    → p.seq * 1024 ≡ c.status.total_size
    → c.status.total_size ≢ 0
    → get_bit c.status.progress_array p.seq ≡ false
    → api.write c.partition (p.seq * 1024) (take p.size p.bytes) ≡ mdf_ok
    → (c.status.written_size + p.size) % 2 ^ 32 ≢ c.status.total_size
    → mupgrade_write api node p ≡ some d
    → (d.ret ≡ mdf_ok) × (d.node.config ≡ some (record c { status = noted c.status p }))
unfolding mupgrade_write write_configured note_written
past_end_written api node c p e running at_end some_bytes unset ok short ran = ground arith
