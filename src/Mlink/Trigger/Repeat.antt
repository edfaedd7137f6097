-- ===== src/Mlink/Trigger/Repeat.antt =====
-- When triggers fire again, and which bounds count.
use pio_esp_mdf_example.Prelude.{ℕ, ◌≡◌, refl, true, List, [], ◌∷◌, some, arith}
use pio_esp_mdf_example.Mcommon.Err.{mdf_ok}
use pio_esp_mdf_example.Mlink.Trigger.{Compare, Trigger, Communicate, TriggerApi, meets, handle_all}

abbrev pub AllSync : List Trigger → Type 0
AllSync [] = Unit {0}
AllSync (t ∷ ts) = (t.sync ≡ true) × AllSync ts

-- If each value can be read and the sends of one call of mlink_trigger_handle all succeed, then a
-- second call, before a value changes, sends nothing for triggers that synchronise, and changes none.
pub handle_all_settles :
    (api : TriggerApi) (value_of : ℕ → ℕ) (communicate : Communicate) (value value' : ℕ)
    (ts : List Trigger)
    → ((cid : ℕ) → api.get_value cid ≡ (mdf_ok, some (value_of cid)))
    → AllSync ts
    → (handle_all api communicate value ts).ret ≡ mdf_ok
    → handle_all api communicate value' (handle_all api communicate value ts).triggers ≡ record {
      ret = mdf_ok;
      triggers = (handle_all api communicate value ts).triggers;
      sends = [];
    }
unfolding handle_all
handle_all_settles api value_of communicate value value' [] reads sync ok = refl
handle_all_settles api value_of communicate value value' (t ∷ ts) reads sync ok =
    let v = value_of t.cid in
    let ih = handle_all_settles api value_of communicate v v ts reads sync.1 in
    ground (arith, ih, reads t.cid, sync.0, ok)

-- The bounds that a trigger states for rising and falling have no effect on when it fires.
meets_ignores_bounds :
    (c : Compare) (v rising falling : ℕ)
    → meets c v
      ≡ meets
          (record c {
            rising = record (c.rising) { bound = rising };
            falling = record (c.falling) { bound = falling };
          })
          v
unfolding meets
meets_ignores_bounds c v rising falling = refl
