-- ===== src/Mcommon/InfoStore.antt =====
-- The information that survives a restart: mdf_info_init, mdf_info_erase, mdf_info_save and
-- __mdf_info_load of esp-mdf/components/mcommon/mdf_info_store.c. The NVS library is an argument.
pub mod Laws
pub mod Tests
use pio_esp_mdf_example.Prelude.{
  ℕ, List, [], ◌∷◌, Option, none, some, Bool, true, false, not, ◌&&◌, ◌||◌, length, ◌==◌,
  if◌then◌else◌,
}
use pio_esp_mdf_example.Mcommon.Err.{Err, mdf_ok, mdf_err_invalid_arg}

abbrev pub Text : Type 0
Text = List ℕ

-- The calls of the NVS library on its state, with the namespace opened, and its codes of errors.
-- What `get_blob` writes, if it does, is the value.
pub record Nvs (S : Type 0) : Type 0 where
  pub flash_init : S → Err × S
  pub flash_erase : S → Err × S
  pub open_space : S → Err
  pub set_blob : Text → List ℕ → S → Err × S
  pub erase_key : Text → S → Err × S
  pub erase_all : S → Err × S
  pub commit : S → S
  pub get_blob : Text → ℕ → S → Err × Option (List ℕ)
  pub not_found : Err
  pub no_free_pages : Err
  pub new_version_found : Err

-- The state of the library, and `init_flag`
pub record Info (S : Type 0) : Type 0 where
  pub nvs : S
  pub init_flag : Bool

-- What ESP_ERROR_CHECK does: the program stops at an error.
abbrev pub checked : {S : Type 0} → Err × S → Option S
checked (ret, s) = if ret == mdf_ok then some s else none

abbrev pub initialised : {S : Type 0} → Option S → Option (Info S)
initialised none = none
initialised (some s) = some (record { nvs = s; init_flag = true })

abbrev pub init_again : {S : Type 0} → Nvs S → Option S → Option S
init_again nvs none = none
init_again nvs (some s) = checked (nvs.flash_init s)

unfoldable pub first_init : {S : Type 0} → Nvs S → S → Option S
first_init nvs s =
    let (ret, s') = nvs.flash_init s in
    if (ret == nvs.no_free_pages) || (ret == nvs.new_version_found)
    then init_again nvs (checked (nvs.flash_erase s'))
    else checked (ret, s')

-- mdf_info_init; `none` stops the program.
unfoldable pub info_init : {S : Type 0} → Nvs S → Info S → Option (Info S)
info_init nvs m = if m.init_flag then some m else initialised (first_init nvs m.nvs)

-- "ESP-MDF", which is MDF_SPACE_NAME
abbrev pub space_name : Text
space_name = 0x45 ∷ 0x53 ∷ 0x50 ∷ 0x2d ∷ 0x4d ∷ 0x44 ∷ 0x46 ∷ []

unfoldable pub same_text : Text → Text → Bool
same_text [] [] = true
same_text [] (d ∷ ds) = false
same_text (c ∷ cs) [] = false
same_text (c ∷ cs) (d ∷ ds) = (c == d) && same_text cs ds

-- mdf_info_save once the library is initialised
unfoldable pub save_opened : {S : Type 0} → Nvs S → Text → List ℕ → S → Err × S
save_opened nvs key value s =
    let (ret, s') = nvs.set_blob key value s in
    if not (nvs.open_space s == mdf_ok) then (nvs.open_space s, s) else (ret, nvs.commit s')

-- mdf_info_erase once the library is initialised: a key that is not there is no error, and the name
-- of the namespace stands for all keys.
unfoldable pub erase_opened : {S : Type 0} → Nvs S → Text → S → Err × S
erase_opened nvs key s =
    let (ret, s') = if same_text key space_name then nvs.erase_all s else nvs.erase_key key s in
    if not (nvs.open_space s == mdf_ok)
    then (nvs.open_space s, s)
    else (if ret == nvs.not_found then mdf_ok else ret, nvs.commit s')

-- __mdf_info_load once the library is initialised
unfoldable pub load_opened : {S : Type 0} → Nvs S → Text → ℕ → S → Err × Option (List ℕ)
load_opened nvs key size s =
    if not (nvs.open_space s == mdf_ok) then (nvs.open_space s, none) else nvs.get_blob key size s

abbrev pub on_nvs : {S : Type 0} → (S → Err × S) → Option (Info S) → Option (Err × Info S)
on_nvs f none = none
on_nvs f (some m) = let (ret, s) = f m.nvs in some (ret, record m { nvs = s })

-- mdf_info_save; the pointers are there, `length` is that of the value.
unfoldable pub info_save : {S : Type 0} → Nvs S → Text → List ℕ → Info S → Option (Err × Info S)
info_save nvs key value m =
    if length value == 0
    then some (mdf_err_invalid_arg, m)
    else on_nvs (save_opened nvs key value) (info_init nvs m)

-- mdf_info_erase
unfoldable pub info_erase : {S : Type 0} → Nvs S → Text → Info S → Option (Err × Info S)
info_erase nvs key m = on_nvs (erase_opened nvs key) (info_init nvs m)

-- The types of a length that the macro mdf_info_load tells apart
pub data LengthType : Type 0 where
  number_length pointer_length other_length : LengthType

unfoldable pub load_initialised :
    {S : Type 0} → Nvs S → Text → ℕ → Option (Info S) → Option (Err × Option (List ℕ) × Info S)
load_initialised nvs key size none = none
load_initialised nvs key size (some m) =
    let (ret, value) = load_opened nvs key size m.nvs in some (ret, value, m)

-- __mdf_info_load: `size` is the length, or what the pointer to it points to. The result is that of
-- the call, and the value if one is written.
unfoldable pub info_load :
    {S : Type 0} → Nvs S → Text → ℕ → LengthType → Info S → Option (Err × Option (List ℕ) × Info S)
info_load nvs key size other_length m = some (mdf_err_invalid_arg, none, m)
info_load nvs key size type m =
    if size == 0
    then some (mdf_err_invalid_arg, none, m)
    else load_initialised nvs key size (info_init nvs m)
