-- ===== src/Mcommon/Mem.antt =====
-- The records of allocations: mdf_mem_add_record and mdf_mem_remove_record of
-- esp-mdf/components/mcommon/mdf_mem.c. A pointer is its address; the tag, the line and the time of a
-- record are only printed, and left out.
pub mod Count
use pio_esp_mdf_example.Prelude.{
  ℕ, suc, ◌+◌, ◌-◌, ◌%◌, ◌^◌, Bool, true, false, not, ◌&&◌, ◌||◌, List, [], ◌∷◌, Option, none, some,
  leb, ◌==◌, if◌then◌else◌, replicate,
}

-- mdf_mem_info_t; a free slot has the size 0.
pub record Info : Type 0 where
  pub ptr : ℕ
  pub size : ℕ

-- g_mem_count and g_mem_info; the table is allocated when it is first used.
pub record Mem : Type 0 where
  pub count : ℕ
  pub table : Option (List Info)

-- CONFIG_MDF_MEM_DBG_INFO_MAX
abbrev pub info_max : ℕ
info_max = 128

-- The table, allocated if need be.
abbrev pub opened : Option (List Info) → List Info
opened none = replicate info_max (record { ptr = 0; size = 0 })
opened (some table) = table

-- The loop of mdf_mem_add_record: the first free slot takes the record; whether there was one.
unfoldable pub put : List Info → Info → Bool × List Info
put [] info = (false, [])
put (x ∷ xs) info =
    let (stored, rest) = put xs info in
    if x.size == 0 then (true, info ∷ xs) else (stored, x ∷ rest)

-- The loop of mdf_mem_remove_record: the first used slot with the address is freed.
unfoldable pub clear : List Info → ℕ → Bool × List Info
clear [] ptr = (false, [])
clear (x ∷ xs) ptr =
    let (found, rest) = clear xs ptr in
    if not (x.size == 0) && x.ptr == ptr
    then (true, record x { size = 0 } ∷ xs)
    else (found, x ∷ rest)

-- `tag` is whether the tag is not a null pointer. If the table cannot be allocated, the code writes
-- through a null pointer; here it always can.
unfoldable pub mem_add_record : Mem → ℕ → ℕ → Bool → Mem
mem_add_record mem ptr size tag =
    let table = opened mem.table in
    let (stored, table') = put table (record { ptr = ptr; size = size }) in
    let count = if stored then (mem.count + 1) % 2 ^ 32 else mem.count in
    if ptr == 0 || size == 0 || not tag
    then mem
    else if leb info_max mem.count
    then record mem { table = some table }
    else record { count = count; table = some table' }

unfoldable pub mem_remove_record : Mem → ℕ → Mem
mem_remove_record mem ptr =
    let table = opened mem.table in
    let (found, table') = clear table ptr in
    let count = if found then (mem.count + 2 ^ 32 - 1) % 2 ^ 32 else mem.count in
    if ptr == 0 then mem else record { count = count; table = some table' }
