-- ===== src/Mlink/Tests.antt =====
-- The theorems on triggers at concrete inputs.
use pio_esp_mdf_example.Prelude.{◌≡◌, refl, true, false, [], ◌∷◌, some}
use pio_esp_mdf_example.Mcommon.Err.{mdf_ok}
use pio_esp_mdf_example.Mlink.Trigger.{
  Condition, Compare, Trigger, TriggerApi, meets, handle_all, send_content, send_mesh, set_status,
  mesh, communicate_mesh,
}
use pio_esp_mdf_example.Mlink.Trigger.Repeat.{handle_all_settles}

abbrev unset : Condition
unset = record { flag = false; bound = 0 }

abbrev compare : Compare
compare = record {
  value = 7;
  equal = unset;
  unequal = unset;
  greater_than = unset;
  less_than = unset;
  variation = unset;
  rising = record { flag = true; bound = 5 };
  falling = unset;
}

abbrev trigger : Trigger
trigger = record {
  cid = 3;
  sync = true;
  param = 4;
  group = false;
  compare = compare;
  addrs = 11 ∷ [];
  content = set_status 0 0;
}

abbrev api : TriggerApi
api = record {
  get_value = λ cid. (mdf_ok, some 9);
  mwifi_write = λ addr. mdf_ok;
  espnow_write = λ addrs. mdf_ok;
}

-- The value rises by 2, which is less than the bound of 5, and the trigger fires.
first_call : handle_all api communicate_mesh 0 (trigger ∷ []) ≡ record {
  ret = mdf_ok;
  triggers = record trigger { compare = record compare { value = 9 } } ∷ [];
  sends = mesh 11 false (set_status 4 9) ∷ [];
}
unfolding handle_all meets send_content send_mesh
first_call = refl

succeeds : (handle_all api communicate_mesh 0 (trigger ∷ [])).ret ≡ mdf_ok
unfolding handle_all meets send_content send_mesh
succeeds = refl

handle_all_settles_example :
    handle_all api communicate_mesh 1 (handle_all api communicate_mesh 0 (trigger ∷ [])).triggers
    ≡ record {
      ret = mdf_ok;
      triggers = (handle_all api communicate_mesh 0 (trigger ∷ [])).triggers;
      sends = [];
    }
handle_all_settles_example =
    handle_all_settles api (λ cid. 9) communicate_mesh 0 1 (trigger ∷ []) (λ cid. refl) (refl, tt)
      succeeds
