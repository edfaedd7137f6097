-- ===== src/Mlink/Handle/Dispatch.antt =====
-- Which handler a request reaches: the loops of mlink_handle and mlink_handle_request.
use pio_esp_mdf_example.Prelude.{
  ℕ, ◌<◌, ◌≡◌, refl, sym, ◌∙◌, List, [], ◌∷◌, Option, none, some, Bool, true, false, if◌then◌else◌,
  arith, Bool-cases, inl, inr,
}
use pio_esp_mdf_example.Mcommon.Err.{Err, mdf_ok, mdf_err_not_supported}
use pio_esp_mdf_example.Mlink.Handle.{
  Table, HandleData, same_name, keep, place, placed, set_handle, Run, run_all, run_first,
}
use pio_esp_mdf_example.Mlink.Handle.Table.{
  find, IsEmpty, IsAbsent, IsTable, free, same_name_sym, same_name_trans,
}

-- What a call of the function that was found gives
abbrev pub called :
    {F S : Type 0} → Run F S → Err → S → HandleData → Option F → Err × HandleData × S
called run ret s d none = (ret, d, s)
called run ret s d (some f) = run f s d

module _ {F S : Type 0} (run : Run F S) where
  run_all-IsAbsent :
      (t : Table F) (m : List ℕ) (ret : Err) (s : S) (d : HandleData)
      → 0 < free t
      → IsAbsent m t
      → run_all run t m ret s d ≡ some (ret, d, s)
  unfolding run_all
  run_all-IsAbsent [] m ret s d room h = absurd (omega arith)
  run_all-IsAbsent (none ∷ t) m ret s d room h = refl
  run_all-IsAbsent (some (n, f) ∷ t) m ret s d room (e, h) =
      rw e (run_all-IsAbsent t m ret s d room h)

  alike_missing : (t : Table F) (m n : List ℕ) → same_name m n ≡ true → IsAbsent n t → IsAbsent m t
  alike_missing [] m n e h = tt
  alike_missing (none ∷ t) m n e h = alike_missing t m n e h
  alike_missing (some (k, f) ∷ t) m n e (a, h) =
      (same_name_sym m k ∙ same_name_trans m n k e ∙ same_name_sym k n ∙ a, alike_missing t m n e h)

  run_all_calls :
      (t : Table F) (m : List ℕ) (ret : Err) (s : S) (d : HandleData)
      → 0 < free t
      → IsTable t
      → run_all run t m ret s d ≡ some (called run ret s d (find t m))
  unfolding run_all
  run_all_calls [] m ret s d room h = absurd (omega arith)
  run_all_calls (none ∷ t) m ret s d room h = refl
  run_all_calls (some (n, f) ∷ t) m ret s d room (a, h) = elim (Bool-cases (same_name m n)) [
    | inl e ↦ rw e (
        run_all-IsAbsent t m (run f s d).0 (run f s d).2 (run f s d).1 room
          (alike_missing t m n e a))
    | inr e ↦ rw e (run_all_calls t m ret s d room h)
  ]

  pub run_first_calls :
      (t : Table F) (m : List ℕ) (s : S) (d : HandleData)
      → 0 < free t
      → run_first run t m s d ≡ some (called run mdf_err_not_supported s d (find t m))
  unfolding run_first
  run_first_calls [] m s d room = absurd (omega arith)
  run_first_calls (none ∷ t) m s d room = refl
  run_first_calls (some (n, f) ∷ t) m s d room = elim (Bool-cases (same_name m n)) [
    | inl e ↦ rw e refl
    | inr e ↦ rw e (run_first_calls t m s d room)
  ]

  -- In a table whose entries stand together at the start with names that differ also in lower case,
  -- and that has an unused entry, the loop of mlink_handle_request, which does not stop behind an
  -- entry that it calls, does the same as that of mlink_handle, which does.
  pub run_all-run_first :
      (t : Table F) (m : List ℕ) (s : S) (d : HandleData)
      → 0 < free t
      → IsTable t
      → run_all run t m mdf_err_not_supported s d ≡ run_first run t m s d
  run_all-run_first t m s d room h =
      run_all_calls t m mdf_err_not_supported s d room h ∙ sym (run_first_calls t m s d room)

not_found :
    {F : Type 0}
    → (b : Bool) (g : F) (x : Option F) → (if b then some g else x) ≡ none
    → (b ≡ false) × (x ≡ none)
not_found true g x h = absurd (cc h)
not_found false g x h = (refl, h)

-- The loops leave a table that is full, for a name that is not in it.
run_first_leaves :
    {F S : Type 0}
    → (run : Run F S) (t : Table F) (m : List ℕ) (s : S) (d : HandleData) → free t ≡ 0
    → find t m ≡ none
    → run_first run t m s d ≡ none
unfolding run_first
run_first_leaves run [] m s d full h = refl
run_first_leaves run (none ∷ t) m s d full h = absurd (omega (arith, full))
run_first_leaves run (some (n, f) ∷ t) m s d full h =
    let (e, h') = not_found (same_name m n) f (find t m) h in
    rw e (run_first_leaves run t m s d full h')

run_all_leaves :
    {F S : Type 0}
    → (run : Run F S) (t : Table F) (m : List ℕ) (ret : Err) (s : S) (d : HandleData) → free t ≡ 0
    → find t m ≡ none
    → run_all run t m ret s d ≡ none
unfolding run_all
run_all_leaves run [] m ret s d full h = refl
run_all_leaves run (none ∷ t) m ret s d full h = absurd (omega (arith, full))
run_all_leaves run (some (n, f) ∷ t) m ret s d full h =
    let (e, h') = not_found (same_name m n) f (find t m) h in
    rw e (run_all_leaves run t m ret s d full h')

-- What `place` makes of a table with one unused entry, for a name that is not in it
abbrev Filled : {F : Type 0} → List ℕ → Option (Table F) → Type 0
Filled m none = ⊥
Filled m (some t) = (free t ≡ 0) × (find t m ≡ none)

keep-Filled :
    {F : Type 0}
    → (n m : List ℕ) (g : F) (o : Option (Table F)) → same_name m n ≡ false
    → Filled m o
    → Filled m (keep (some (n, g)) o)
keep-Filled n m g none e h = h
keep-Filled n m g (some t) e (full, h) = (full, rw e h)

find-full : {F : Type 0} → (t : Table F) (m : List ℕ) → IsEmpty t → find t m ≡ none
find-full [] m h = refl
find-full (none ∷ t) m h = refl
find-full (some e ∷ t) m h = elim h [ ]

place-Filled :
    {F : Type 0}
    → (t : Table F) (name m : List ℕ) (f : F) → free t ≡ 1
    → IsTable t
    → find t name ≡ none
    → find t m ≡ none
    → same_name m name ≡ false
    → Filled m (place t name f)
unfolding place
place-Filled [] name m f one h absent absent' apart = absurd (omega (arith, one))
place-Filled (none ∷ t) name m f one h absent absent' apart =
    (omega (arith, one), rw apart (find-full t m h))
place-Filled (some (n, g) ∷ t) name m f one (a, h) absent absent' apart =
    let (e, absent₁) = not_found (same_name name n) g (find t name) absent in
    let (e', absent₂) = not_found (same_name m n) g (find t m) absent' in
    rw (same_name_sym n name, e)
      (keep-Filled n m g (place t name f) e' (place-Filled t name m f one h absent₁ absent₂ apart))

placed-Filled :
    {F S : Type 0}
    → (run : Run F S) (t : Table F) (o : Option (Table F)) (m : List ℕ) (ret : Err) (s : S)
      (d : HandleData)
    → Filled m o
    → ((placed t o).0 ≡ mdf_ok)
      × (run_first run (placed t o).1 m s d ≡ none)
      × (run_all run (placed t o).1 m ret s d ≡ none)
placed-Filled run t none m ret s d h = elim h [ ]
placed-Filled run t (some t') m ret s d (full, h) =
    (refl, run_first_leaves run t' m s d full h, run_all_leaves run t' m ret s d full h)

-- When one entry of the table is unused, mlink_set_handle for a new name succeeds, and from then
-- on the loops of mlink_handle and mlink_handle_request run past the end of the table for every
-- request whose name is not in it.
last_place_loses_end :
    {F S : Type 0}
    → (run : Run F S) (t : Table F) (name m : List ℕ) (f : F) (ret : Err) (s : S) (d : HandleData)
    → free t ≡ 1
    → IsTable t
    → find t name ≡ none
    → find t m ≡ none
    → same_name m name ≡ false
    → ((set_handle t (some name) (some f)).0 ≡ mdf_ok)
      × (run_first run (set_handle t (some name) (some f)).1 m s d ≡ none)
      × (run_all run (set_handle t (some name) (some f)).1 m ret s d ≡ none)
unfolding set_handle
last_place_loses_end run t name m f ret s d one h absent absent' apart =
    placed-Filled run t (place t name f) m ret s d
      (place-Filled t name m f one h absent absent' apart)
