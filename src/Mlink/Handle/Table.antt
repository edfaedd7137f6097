-- ===== src/Mlink/Handle/Table.antt =====
-- The table of the handlers as a map from names, which are equal up to the case of their letters.
use pio_esp_mdf_example.Prelude.{
  ℕ, suc, ◌≡◌, refl, List, [], ◌∷◌, Option, none, some, Bool, true, false, ◌&&◌, ◌==◌,
  if◌then◌else◌, arith, Bool-cases, inl, inr,
}
use pio_esp_mdf_example.Mlink.Handle.{Table, to_lower, same_name, keep, place, placed, set_handle}

==_sym : (a b : ℕ) → (a == b) ≡ (b == a)
==_sym a b = ground arith

&&_true : (a b : ℕ) (s : Bool) → ((a == b) && s) ≡ true → (a ≡ b) × (s ≡ true)
&&_true a b s h = (ground (arith, h), ground (arith, h))

pub same_name_sym : (a b : List ℕ) → same_name a b ≡ same_name b a
unfolding same_name
same_name_sym [] [] = refl
same_name_sym [] (d ∷ ds) = refl
same_name_sym (c ∷ cs) [] = refl
same_name_sym (c ∷ cs) (d ∷ ds) = rw (==_sym (to_lower c) (to_lower d), same_name_sym cs ds) refl

pub same_name_trans : (a b m : List ℕ) → same_name a b ≡ true → same_name m a ≡ same_name m b
unfolding same_name
same_name_trans [] [] m h = refl
same_name_trans [] (d ∷ ds) m h = absurd (ground arith)
same_name_trans (c ∷ cs) [] m h = absurd (ground arith)
same_name_trans (c ∷ cs) (d ∷ ds) [] h = refl
same_name_trans (c ∷ cs) (d ∷ ds) (e ∷ es) h =
    let (e₁, e₂) = &&_true (to_lower c) (to_lower d) (same_name cs ds) h in
    rw (e₁, same_name_trans cs ds es e₂) refl

abbrev pub find : {F : Type 0} → Table F → List ℕ → Option F
find [] m = none
find (none ∷ t) m = none
find (some (n, f) ∷ t) m = if same_name m n then some f else find t m

abbrev pub IsEmpty : {F : Type 0} → Table F → Type 0
IsEmpty [] = Unit
IsEmpty (none ∷ t) = IsEmpty t
IsEmpty (some e ∷ t) = ⊥

abbrev pub IsAbsent : {F : Type 0} → List ℕ → Table F → Type 0
IsAbsent m [] = Unit
IsAbsent m (none ∷ t) = IsAbsent m t
IsAbsent m (some (n, f) ∷ t) = (same_name m n ≡ false) × IsAbsent m t

-- The entries stand together at the start, and no two have the same name.
abbrev pub IsTable : {F : Type 0} → Table F → Type 0
IsTable [] = Unit
IsTable (none ∷ t) = IsEmpty t
IsTable (some (n, f) ∷ t) = IsAbsent n t × IsTable t

-- The number of entries that are not in use
abbrev pub free : {F : Type 0} → Table F → ℕ
free [] = 0
free (none ∷ t) = suc (free t)
free (some e ∷ t) = free t

IsAbsent-IsEmpty : {F : Type 0} → (n : List ℕ) (t : Table F) → IsEmpty t → IsAbsent n t
IsAbsent-IsEmpty n [] h = tt
IsAbsent-IsEmpty n (none ∷ t) h = IsAbsent-IsEmpty n t h
IsAbsent-IsEmpty n (some e ∷ t) h = elim h [ ]

find-IsAbsent : {F : Type 0} → (m : List ℕ) (t : Table F) → IsAbsent m t → find t m ≡ none
find-IsAbsent m [] h = refl
find-IsAbsent m (none ∷ t) h = refl
find-IsAbsent m (some (n, f) ∷ t) (e, h) = rw e (find-IsAbsent m t h)

-- What `place` gives, when it gives a table
abbrev pub IfPlaced : {F : Type 0} → Option (Table F) → (Table F → Type 0) → Type 0
IfPlaced none P = Unit
IfPlaced (some t) P = P t

IfPlaced-keep :
    {F : Type 0}
    → (e : Option (List ℕ × F)) (o : Option (Table F)) (P Q : Table F → Type 0)
    → ((t : Table F) → P t → Q (e ∷ t))
    → IfPlaced o P
    → IfPlaced (keep e o) Q
IfPlaced-keep e none P Q h p = tt
IfPlaced-keep e (some t) P Q h p = h t p

module _ {F : Type 0} where
  IfPlaced-both :
      (o : Option (Table F)) (P Q : Table F → Type 0)
      → IfPlaced o P
      → IfPlaced o Q
      → IfPlaced o (λ t. P t × Q t)
  IfPlaced-both none P Q p q = tt
  IfPlaced-both (some t) P Q p q = (p, q)

  empty-IsTable : (t : Table F) → IsEmpty t → IsTable t
  empty-IsTable [] h = tt
  empty-IsTable (none ∷ t) h = h
  empty-IsTable (some e ∷ t) h = elim h [ ]

  place-IsAbsent :
      (t : Table F) (name n : List ℕ) (f : F)
      → same_name n name ≡ false
      → IsAbsent n t
      → IfPlaced (place t name f) (IsAbsent n)
  unfolding place
  place-IsAbsent [] name n f apart h = tt
  place-IsAbsent (none ∷ t) name n f apart h = (apart, h)
  place-IsAbsent (some (m, g) ∷ t) name n f apart (a, h) = elim (Bool-cases (same_name m name)) [
    | inl e ↦ rw e (a, h)
    | inr e ↦ rw e (
        IfPlaced-keep (some (m, g)) (place t name f) (IsAbsent n) (IsAbsent n) (λ t' p. (a, p))
          (place-IsAbsent t name n f apart h))
  ]

  place-IsTable :
      (t : Table F) (name : List ℕ) (f : F) → IsTable t → IfPlaced (place t name f) IsTable
  unfolding place
  place-IsTable [] name f h = tt
  place-IsTable (none ∷ t) name f h = (IsAbsent-IsEmpty name t h, empty-IsTable t h)
  place-IsTable (some (n, g) ∷ t) name f (a, h) = elim (Bool-cases (same_name n name)) [
    | inl e ↦ rw e (a, h)
    | inr e ↦ rw e (
        IfPlaced-keep (some (n, g)) (place t name f) (λ t'. IsAbsent n t' × IsTable t') IsTable
          (λ t' p. p)
          (IfPlaced-both (place t name f) (IsAbsent n) IsTable (place-IsAbsent t name n f e a)
            (place-IsTable t name f h)))
  ]

  placed-IsTable :
      (t : Table F) (o : Option (Table F)) → IsTable t → IfPlaced o IsTable → IsTable (placed t o).1
  placed-IsTable t none h p = h
  placed-IsTable t (some t') h p = p

  -- From a table whose entries stand together at the start with names that differ also in lower
  -- case, mlink_set_handle makes such a table, for any name and function, null ones included.
  set_handle-IsTable :
      (t : Table F) (name : Option (List ℕ)) (f : Option F)
      → IsTable t
      → IsTable (set_handle t name f).1
  unfolding set_handle
  set_handle-IsTable t none none h = h
  set_handle-IsTable t none (some f) h = h
  set_handle-IsTable t (some name) none h = h
  set_handle-IsTable t (some name) (some f) h =
      placed-IsTable t (place t name f) h (place-IsTable t name f h)
