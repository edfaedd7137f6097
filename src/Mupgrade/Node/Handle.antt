-- ===== src/Mupgrade/Node/Handle.antt =====
-- mupgrade_handle of esp-mdf/components/mupgrade/mupgrade_node.c.
use pio_esp_mdf_example.Prelude.{ℕ, Bool, not, ◌||◌, [], Option, none, some, ◌==◌, if◌then◌else◌}
use pio_esp_mdf_example.Mcommon.Err.{mdf_ok, mdf_err_invalid_arg}
use pio_esp_mdf_example.Mupgrade.Node.{Status, Node, NodeApi, Done, mupgrade_status}
use pio_esp_mdf_example.Mupgrade.Node.Write.{Packet, mupgrade_write}

-- What arrives, by its first byte: MUPGRADE_TYPE_STATUS, MUPGRADE_TYPE_DATA or another type.
pub data Message : Type 0 where
  status_message : Status → Message
  data_message : Packet → Message
  other_message : Message

-- `addr` is whether the address is not a null pointer; a null pointer to the data is `none`.
unfoldable pub mupgrade_handle : NodeApi → Node → Bool → Option Message → ℕ → Option Done
mupgrade_handle api node addr none size =
    some (record { ret = mdf_err_invalid_arg; node = node; effects = [] })
mupgrade_handle api node addr (some m) size =
    if not addr || size == 0
    then some (record { ret = mdf_err_invalid_arg; node = node; effects = [] })
    else elim m [
      | status_message s ↦ mupgrade_status api node s
      | data_message p ↦ mupgrade_write api node p
      | other_message ↦ some (record { ret = mdf_ok; node = node; effects = [] })
    ]
