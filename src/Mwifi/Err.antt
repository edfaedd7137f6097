-- ===== src/Mwifi/Err.antt =====
-- The error codes of esp-mdf/components/mwifi/include/mwifi.h, and those of the mesh library that
-- mwifi.c tests for.
use pio_esp_mdf_example.Mcommon.Err.{Err}

abbrev pub err_not_init : Err
err_not_init = 0x200001

abbrev pub err_inited : Err
err_inited = 0x200002

abbrev pub err_not_start : Err
err_not_start = 0x200003

abbrev pub err_no_config : Err
err_no_config = 0x200008

abbrev pub err_no_root : Err
err_no_root = 0x20000a

-- ESP_ERR_MESH_NO_MEMORY, ESP_ERR_MESH_DISCARD, ESP_ERR_MESH_TIMEOUT and ESP_ERR_NOT_SUPPORTED, whose
-- values are those of the library.
pub record MeshErr : Type 0 where
  pub no_memory : Err
  pub discard : Err
  pub timeout : Err
  pub not_supported : Err
