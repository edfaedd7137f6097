-- ===== src/Mcommon/Err.antt =====
-- esp-mdf/components/mcommon/include/mdf_err.h. An `mdf_err_t` is a 32-bit `int`; it is kept as its
-- bit pattern, so that -1 is 0xffffffff.
use pio_esp_mdf_example.Prelude.{ℕ, Bool, leb}

abbrev pub Err : Type 0
Err = ℕ

abbrev pub mdf_ok : Err
mdf_ok = 0

abbrev pub mdf_fail : Err
mdf_fail = 0xffff_ffff

abbrev pub mdf_err_no_mem : Err
mdf_err_no_mem = 0x100001

abbrev pub mdf_err_invalid_arg : Err
mdf_err_invalid_arg = 0x100002

abbrev pub mdf_err_not_supported : Err
mdf_err_not_supported = 0x100006

abbrev pub mdf_err_timeout : Err
mdf_err_timeout = 0x100007

abbrev pub mdf_err_not_init : Err
mdf_err_not_init = 0x10000c

abbrev pub mdf_err_buf : Err
mdf_err_buf = 0x10000d

-- The test `ret < 0` on a bit pattern.
abbrev pub is_negative : Err → Bool
is_negative e = leb 0x8000_0000 e
