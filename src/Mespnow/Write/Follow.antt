-- ===== src/Mespnow/Write/Follow.antt =====
-- The outer loop of `mespnow_write` after one packet.
use pio_esp_mdf_example.Prelude.{
  ◌+◌, ◌≤◌, ◌≡◌, Bool, true, false, not, ◌++◌, arith, length, length-append, if◌then◌else◌, ◌==◌,
}
use pio_esp_mdf_example.Mcommon.Err.{mdf_ok}
use pio_esp_mdf_example.Mespnow.Write.{Sent}

-- The outer loop's three ways on from one packet.
abbrev pub follow : Sent → Bool → Sent → Sent
follow sent last rest =
    if not (sent.ret == mdf_ok)
    then sent
    else if last
    then sent
    else record rest { calls = sent.calls ++ rest.calls }

pub follow-ok :
    (sent : Sent) (last : Bool) (rest : Sent)
    → (follow sent last rest).ret ≡ mdf_ok
    → (sent.ret ≡ mdf_ok) × (last ≡ false → rest.ret ≡ mdf_ok)
follow-ok sent last rest h = ground arith

pub follow-last : (sent rest : Sent) → follow sent true rest ≡ sent
follow-last sent rest = ground arith

pub follow-more :
    (sent rest : Sent)
    → sent.ret ≡ mdf_ok
    → follow sent false rest ≡ record rest { calls = sent.calls ++ rest.calls }
follow-more sent rest h = ground arith

pub length-follow :
    (sent : Sent) (last : Bool) (rest : Sent)
    → length (follow sent last rest).calls
      ≤ length sent.calls + (if last then 0 else length rest.calls)
length-follow sent last rest = ground (arith, length-append sent.calls rest.calls)
