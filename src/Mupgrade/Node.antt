-- ===== src/Mupgrade/Node.antt =====
-- The device that is upgraded: esp-mdf/components/mupgrade/mupgrade_node.c. What the system answers
-- is in `NodeApi`; what it is asked to do is a list of effects. The handle and the start time of the
-- configuration and the type of the status are left out, since the code only hands them on.
pub mod Write
pub mod Handle
pub mod Whole
pub mod Start
pub mod Stop
mod Tests
pub mod Step
pub mod Keeps
pub mod Boot
use pio_esp_mdf_example.Prelude.{
  ℕ, ◌+◌, ◌*◌, Bool, true, false, not, ◌&&◌, List, [], ◌∷◌, ◌++◌, Option, none, some, take, ◌==◌,
  if◌then◌else◌,
}
use pio_esp_mdf_example.Mcommon.Err.{Err, mdf_ok, mdf_err_invalid_arg, mdf_err_not_supported}
use pio_esp_mdf_example.Mupgrade.Err.{err_stop, err_firmware_partition}
use pio_esp_mdf_example.Mupgrade.Progress.{filled}

-- mupgrade_status_t with the progress array behind it
pub record Status : Type 0 where
  pub name : List ℕ
  pub error_code : Err
  pub total_size : ℕ
  pub written_size : ℕ
  pub progress_array : List ℕ

-- mupgrade_config_t; the partition is its address, or a null pointer.
pub record Config : Type 0 where
  pub partition : Option ℕ
  pub status : Status

-- g_upgrade_config, g_upgrade_finished_flag and s_next_written_percentage
pub record Node : Type 0 where
  pub config : Option Config
  pub finished : Bool
  pub next_percentage : ℕ

pub data Effect : Type 0 where
  started finish set_boot set_boot_running ota_begin ota_end info_erase : Effect
  report : ℕ → Effect
  flash_write : ℕ → List ℕ → Effect
  info_save : Status → Effect
  send : Status → ℕ → Effect

-- `memory` is whether there is memory for the configuration, `load` the result of mdf_info_load
-- with what is in the configuration after it, and `root` whether the device is MESH_ROOT or MESH_STA.
pub record NodeApi : Type 0 where
  pub memory : Bool
  pub load : Err × Config
  pub root : Bool
  pub running : Option ℕ
  pub update : Option ℕ
  pub boot : Err
  pub boot_running : Err
  pub begin : Err
  pub save : Err
  pub write : Option ℕ → ℕ → List ℕ → Err
  pub sent : Err

pub record Done : Type 0 where
  pub ret : Err
  pub node : Node
  pub effects : List Effect

-- `!strcmp(a, b)`; a list that ends stands for the 0 that ends the string.
unfoldable pub same_name : List ℕ → List ℕ → Bool
same_name [] [] = true
same_name [] (y ∷ ys) = y == 0
same_name (x ∷ xs) [] = x == 0
same_name (x ∷ xs) (y ∷ ys) =
    let rest = same_name xs ys in if x == y then (if x == 0 then true else rest) else false

-- The code saves from the start of the configuration, with the length of the status alone, so the
-- last 16 bytes of the progress array are not saved.
abbrev pub saved : Status → Status
saved s = record s { progress_array = take 496 s.progress_array }

-- sizeof(mupgrade_status_t)
abbrev pub status_size : ℕ
status_size = 45

-- What runs up to EXIT: the error code, the configuration, the flag and the effects.
pub record Entry : Type 0 where
  pub ret : Err
  pub config : Config
  pub finished : Bool
  pub effects : List Effect

-- The configuration that is there, or the one that is loaded; `none` if there is no memory for it.
abbrev pub configured : NodeApi → Node → Option Config
configured api node = elim (node.config) [
  | some c ↦ some c
  | none ↦ if api.memory then some (record (api.load.1) { partition = api.update }) else none
]

unfoldable pub begin_upgrade : NodeApi → Bool → Config → Status → Entry
begin_upgrade api finished c status =
    let fresh : Status = record status { written_size = 0; progress_array = filled 0 } in
    let blank : Config = record { partition = none; status = fresh } in
    let whole : Status = record fresh {
      written_size = status.total_size;
      progress_array = filled 0xff;
    } in
    let ready : Config = record { partition = api.update; status = fresh } in
    let found : Bool = elim (api.running) [
      | none ↦ false
      | some _ ↦ elim (api.update) [ none ↦ false | some _ ↦ true ]
    ] in
    if same_name c.status.name status.name && c.status.total_size == status.total_size
    then record { ret = mdf_ok; config = c; finished = finished; effects = [] }
    else if api.root
    then (if not (api.boot == mdf_ok)
        then record { ret = api.boot; config = blank; finished = finished; effects = set_boot ∷ [] }
        else record {
          ret = mdf_ok;
          config = record { partition = none; status = whole };
          finished = true;
          effects = set_boot ∷ started ∷ finish ∷ [];
        })
    else if not found
    then record { ret = err_firmware_partition; config = blank; finished = false; effects = [] }
    else if not (api.begin == mdf_ok)
    then record { ret = api.begin; config = ready; finished = false; effects = ota_begin ∷ [] }
    else if not (api.save == mdf_ok)
    then record {
      ret = api.save;
      config = ready;
      finished = false;
      effects = ota_begin ∷ info_save (saved fresh) ∷ [];
    }
    else record {
      ret = mdf_ok;
      config = ready;
      finished = false;
      effects = ota_begin ∷ info_save (saved fresh) ∷ started ∷ [];
    }

-- EXIT of mupgrade_status: the answer to the root.
unfoldable pub answer : NodeApi → ℕ → Entry → Done
answer api next_percentage e =
    let s = e.config.status in
    let partial = not (s.written_size == 0) && not (s.written_size == s.total_size) in
    let reports = if s.written_size == s.total_size then report 100 ∷ [] else [] in
    let code : Err = if s.error_code == err_stop then err_stop else e.ret in
    let s' : Status = record s { error_code = code } in
    record {
      ret = if api.sent == mdf_ok then mdf_ok else api.sent;
      node = record {
        config = some (record (e.config) { status = s' });
        finished = e.finished;
        next_percentage = next_percentage;
      };
      effects =
          e.effects
          ++ (if partial then [] else reports)
          ++ send s' (if partial then status_size + 512 else status_size) ∷ [];
    }

-- mupgrade_status. No result means that EXIT reads through the null pointer of the configuration.
unfoldable pub mupgrade_status : NodeApi → Node → Status → Option Done
mupgrade_status api node status = elim (configured api node) [
  | none ↦ none
  | some c ↦ some (answer api node.next_percentage (begin_upgrade api node.finished c status))
]

-- mupgrade_get_status: the status without the progress array, whose length in the type is 0.
unfoldable pub get_status : Node → Bool → Err × Option Status
get_status node given = if not given then (mdf_err_invalid_arg, none) else elim (node.config) [
  | none ↦ (mdf_err_not_supported, none)
  | some c ↦ (mdf_ok, some (record (c.status) { progress_array = [] }))
]

-- The status after mupgrade_stop, and of a stopped device.
abbrev pub cleared : Status → Status
cleared s = record s { written_size = 0; progress_array = filled 0 }

abbrev pub stopped : Status → Status
stopped s = record s { error_code = err_stop; written_size = 0; progress_array = filled 0 }

-- mupgrade_stop
unfoldable pub mupgrade_stop : NodeApi → Node → Done
mupgrade_stop api node = elim (node.config) [
  | none ↦ record { ret = mdf_ok; node = node; effects = [] }
  | some c ↦
      let s = stopped c.status in
      let first = if node.finished then set_boot_running ∷ [] else [] in
      if node.finished && not (api.boot_running == mdf_ok)
      then record { ret = api.boot_running; node = node; effects = set_boot_running ∷ [] }
      else record {
        ret = if api.sent == mdf_ok then mdf_ok else api.sent;
        node = record node { config = some (record c { status = s }) };
        effects = first ++ info_erase ∷ send s status_size ∷ [];
      }
]
