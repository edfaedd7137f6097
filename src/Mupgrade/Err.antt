-- ===== src/Mupgrade/Err.antt =====
-- The error codes of esp-mdf/components/mupgrade/include/mupgrade.h.
use pio_esp_mdf_example.Mcommon.Err.{Err}

abbrev pub err_firmware_not_init : Err
err_firmware_not_init = 0x500001

abbrev pub err_firmware_partition : Err
err_firmware_partition = 0x500002

abbrev pub err_firmware_invalid : Err
err_firmware_invalid = 0x500003

abbrev pub err_firmware_incomplete : Err
err_firmware_incomplete = 0x500004

abbrev pub err_firmware_download : Err
err_firmware_download = 0x500005

abbrev pub err_firmware_finish : Err
err_firmware_finish = 0x500006

abbrev pub err_device_no_exist : Err
err_device_no_exist = 0x500007

abbrev pub err_send_packet_loss : Err
err_send_packet_loss = 0x500008

abbrev pub err_not_init : Err
err_not_init = 0x500009

abbrev pub err_stop : Err
err_stop = 0x50000a
