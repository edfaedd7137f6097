-- ===== src/Mcommon/InfoStore/Tests.antt =====
-- The theorem on the stored information at a concrete input.
use pio_esp_mdf_example.Prelude.{
  ℕ, ◌≤◌, ◌≡◌, refl, List, [], ◌∷◌, Option, none, some, true, false, length, leb, if◌then◌else◌,
  arith,
}
use pio_esp_mdf_example.Mcommon.Err.{Err, mdf_ok}
use pio_esp_mdf_example.Mcommon.InfoStore.{
  Text, Nvs, Info, info_init, first_init, same_text, save_opened, info_save, number_length,
  info_load,
}
use pio_esp_mdf_example.Mcommon.InfoStore.Laws.{IsNvs, info_load-info_save}

-- A library whose state is the content
abbrev pub Values : Type 0
Values = Text → Option (List ℕ)

abbrev pub not_found : Err
not_found = 0x1102

abbrev pub got : ℕ → Option (List ℕ) → Err × Option (List ℕ)
got n none = (not_found, none)
got n (some v) = if leb (length v) n then (mdf_ok, some v) else (0x110c, none)

abbrev pub nvs : Nvs Values
nvs = record {
  flash_init = λ s. (mdf_ok, s);
  flash_erase = λ s. (mdf_ok, s);
  open_space = λ s. mdf_ok;
  set_blob = λ k v s. (mdf_ok, λ k'. if same_text k k' then some v else s k');
  erase_key = λ k s. (mdf_ok, λ k'. if same_text k k' then none else s k');
  erase_all = λ s. (mdf_ok, λ k'. none);
  commit = λ s. s;
  get_blob = λ k n s. got n (s k);
  not_found = not_found;
  no_free_pages = 0x110d;
  new_version_found = 0x1110;
}

got_loaded : (n : ℕ) (v : List ℕ) → length v ≤ n → got n (some v) ≡ (mdf_ok, some v)
got_loaded n v h = ground (arith, h)

pub nvs-IsNvs : IsNvs nvs (λ s. s)
nvs-IsNvs = record {
  opens = λ s. refl;
  set = λ k v s k' h. refl;
  erased = λ k s k' h. refl;
  not_there = λ k s k' h. refl;
  committed = λ s k. refl;
  get = λ k v n s e h. rw e (got_loaded n v h);
  absent = λ k n s e. rw e refl;
  code = refl;
}

abbrev first : Info Values
first = record { nvs = λ k. none; init_flag = false }

abbrev saved : Info Values
saved = record {
  nvs = λ k'. if same_text (0x61 ∷ []) k' then some (7 ∷ []) else none;
  init_flag = true;
}

info_load-info_save_example :
    info_load nvs (0x61 ∷ []) 4 number_length saved ≡ some (mdf_ok, some (7 ∷ []), saved)
unfolding info_save info_init first_init save_opened
info_load-info_save_example =
    info_load-info_save nvs (λ s. s) nvs-IsNvs (0x61 ∷ []) (7 ∷ []) first saved 4 number_length refl
      (λ h. absurd (cc h)) (omega arith)
