-- ===== src/Mcommon/Mem/Count.antt =====
-- The count of the records is that of the used slots.
use pio_esp_mdf_example.Prelude.{
  ℕ, zero, suc, ◌+◌, ◌≤◌, ◌<◌, ◌≡◌, ◌≢◌, refl, Bool, true, List, [], ◌∷◌, arith, ◌==◌, length,
  if◌then◌else◌, replicate, Bool-cases, inl, inr,
}
use pio_esp_mdf_example.Mcommon.Mem.{
  Info, Mem, info_max, opened, put, clear, mem_add_record, mem_remove_record,
}

abbrev pub used : List Info → ℕ
used [] = 0
used (x ∷ xs) = if x.size == 0 then used xs else suc (used xs)

used_le : (xs : List Info) → used xs ≤ length xs
used_le [] = omega arith
used_le (x ∷ xs) = ground (arith, used_le xs)

used-put :
    (xs : List Info) (info : Info)
    → info.size ≢ 0
    → (used (put xs info).1 ≡ used xs + (if (put xs info).0 then 1 else 0))
      × (length (put xs info).1 ≡ length xs)
unfolding put
used-put [] info h = ground arith
used-put (x ∷ xs) info h = ground (arith, used-put xs info h)

-- There is a free slot if not all are used.
put_stored : (xs : List Info) (info : Info) → used xs < length xs → (put xs info).0 ≡ true
unfolding put
put_stored [] info h = absurd (omega arith)
put_stored (x ∷ xs) info h = ground (arith, put_stored xs info)

used-clear :
    (xs : List Info) (ptr : ℕ)
    → (used xs ≡ used (clear xs ptr).1 + (if (clear xs ptr).0 then 1 else 0))
      × (length (clear xs ptr).1 ≡ length xs)
unfolding clear
used-clear [] ptr = ground arith
used-clear (x ∷ xs) ptr = ground (arith, used-clear xs ptr)

used-replicate : (n : ℕ) → used (replicate n (record { ptr = 0; size = 0 })) ≡ 0
used-replicate zero = refl
used-replicate (suc n) = used-replicate n

abbrev pub IsCounted : Mem → Type 0
IsCounted mem = (mem.count ≡ used (opened mem.table)) × (length (opened mem.table) ≡ info_max)

-- mdf_mem_add_record keeps the count equal to the number of used slots.
mem_add_record-IsCounted :
    (mem : Mem) (ptr size : ℕ) (tag : Bool)
    → IsCounted mem
    → IsCounted (mem_add_record mem ptr size tag)
unfolding mem_add_record
mem_add_record-IsCounted mem ptr size tag h =
    let table = opened mem.table in
    let info : Info = record { ptr = ptr; size = size } in
    elim (Bool-cases (size == 0)) [
      | inl e ↦ ground (arith, h.0, h.1)
      | inr e ↦
          let stored = used-put table info (ground arith) in
          ground (arith, h.0, h.1, stored.0, stored.1, used_le table)
    ]

-- mdf_mem_add_record counts one record more if there is an address, a size, a tag and a free slot.
mem_add_record_stores :
    (mem : Mem) (ptr size : ℕ)
    → IsCounted mem
    → mem.count < info_max
    → ptr ≢ 0
    → size ≢ 0
    → (mem_add_record mem ptr size true).count ≡ mem.count + 1
unfolding mem_add_record
mem_add_record_stores mem ptr size h free p s =
    let info : Info = record { ptr = ptr; size = size } in
    ground (arith, put_stored (opened mem.table) info (omega (arith, h.0, h.1)))

-- mdf_mem_remove_record keeps the count equal to the number of used slots, so that the count, which is
-- unsigned, never falls below 0.
mem_remove_record-IsCounted :
    (mem : Mem) (ptr : ℕ) → IsCounted mem → IsCounted (mem_remove_record mem ptr)
unfolding mem_remove_record
mem_remove_record-IsCounted mem ptr h =
    let table = opened mem.table in
    let freed = used-clear table ptr in ground (arith, h.0, h.1, freed.0, freed.1, used_le table)
