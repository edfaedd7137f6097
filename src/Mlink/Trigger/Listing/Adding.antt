-- ===== src/Mlink/Trigger/Listing/Adding.antt =====
-- Adding a trigger keeps the stored information in step with the list.
use mathlib.Core.Path.{subst}
use pio_esp_mdf_example.Prelude.{
  ℕ, ◌≤◌, ◌≡◌, refl, sym, ap, ◌∙◌, List, [], ◌∷◌, ◌++◌, Option, true, false, length, arith,
  Bool-cases, inl, inr,
}
use pio_esp_mdf_example.Mcommon.Err.{mdf_ok}
use pio_esp_mdf_example.Mcommon.InfoStore.{Text, same_text, space_name}
use pio_esp_mdf_example.Mcommon.InfoStore.Laws.{Store, IsStore}
use pio_esp_mdf_example.Mlink.Keys.{trigger_store_key}
use pio_esp_mdf_example.Mlink.Parse.{Cjson}
use pio_esp_mdf_example.Mlink.Handle.{same_name}
use pio_esp_mdf_example.Mlink.Handle.Table.{same_name_sym, same_name_trans}
use pio_esp_mdf_example.Mlink.Trigger.Parse.{Listed}
use pio_esp_mdf_example.Mlink.Trigger.Listing.{behind, remove_same}
use pio_esp_mdf_example.Mlink.Trigger.Listing.Entries.{IsEntry, AllEntries}
use pio_esp_mdf_example.Mlink.Trigger.Listing.Stored.{
  differ, NoneNamed, AreNamed, IsKept, AllKept, IsReliable,
}

-- Two triggers that have the same name up to case are named alike by no other.
named_as :
    (t : Listed) (name : List ℕ) (ts : List Listed)
    → same_name t.name name ≡ true
    → NoneNamed t.name ts
    → NoneNamed name ts
named_as t name [] e h = tt
named_as t name (u ∷ ts) e (a, h) =
    (sym (same_name_trans t.name name u.name e) ∙ a, named_as t name ts e h)

module _ {S : Type 0} (store : Store S) (content : S → Text → Option (List ℕ))
    (laws : IsStore store content) (works : IsReliable store content) (cjson : Cjson)
    (mac_str2hex : List ℕ → ℕ) where
  -- Both states have the same texts for the triggers of the list.
  abbrev pub Agree : S → S → List Listed → Type 0
  Agree s s' [] = Unit
  Agree s s' (t ∷ ts) = (content s' t.name ≡ content s t.name) × Agree s s' ts

  pub kept-Agree :
      (s s' : S) (ts : List Listed)
      → Agree s s' ts
      → AllKept content cjson mac_str2hex s ts
      → AllKept content cjson mac_str2hex s' ts
  kept-Agree s s' [] a k = tt
  kept-Agree s s' (t ∷ ts) (e, a) ((raw, held, clean, parsed, long), k) =
      ((raw, e ∙ held, clean, parsed, long), kept-Agree s s' ts a k)

  erase-Agree :
      (name : List ℕ) (s : S) (ts : List Listed)
      → same_text name space_name ≡ false
      → NoneNamed name ts
      → (store.erase name s).0 ≡ mdf_ok
      → Agree s (store.erase name s).1 ts
  erase-Agree name s [] free h ok = tt
  erase-Agree name s (t ∷ ts) free (apart, h) ok = (
    laws.erased name s t.name free ok
        ∙ rw (differ name t.name (same_name_sym name t.name ∙ apart)) refl,
    erase-Agree name s ts free h ok,
  )

  pub save-Agree :
      (name : List ℕ) (v : List ℕ) (s : S) (ts : List Listed)
      → NoneNamed name ts
      → (store.save name v s).0 ≡ mdf_ok
      → Agree s (store.save name v s).1 ts
  save-Agree name v s [] h ok = tt
  save-Agree name v s (t ∷ ts) (apart, h) ok = (
    laws.saved name v s t.name ok
        ∙ rw (differ name t.name (same_name_sym name t.name ∙ apart)) refl,
    save-Agree name v s ts h ok,
  )

  pub copy-Agree :
      (v : List ℕ) (s : S) (ts : List Listed)
      → AreNamed ts
      → (store.save trigger_store_key v s).0 ≡ mdf_ok
      → Agree s (store.save trigger_store_key v s).1 ts
  copy-Agree v s [] h ok = tt
  copy-Agree v s (t ∷ ts) (apart, free, key, h) ok =
      (laws.saved trigger_store_key v s t.name ok ∙ rw key refl, copy-Agree v s ts h ok)

  -- What is left when the trigger with the name is removed
  abbrev pub IsLeft : List ℕ → List Listed → List Listed × S → Type 0
  IsLeft name list (ts, s) =
      AllKept content cjson mac_str2hex s ts
      × AllEntries ts
      × AreNamed ts
      × NoneNamed name ts
      × (length ts ≤ length list)

  remove_hit :
      (name : List ℕ) (t : Listed) (ts : List Listed) (s : S)
      → same_name t.name name ≡ true
      → (store.erase t.name s).0 ≡ mdf_ok
      → remove_same store name (t ∷ ts) s ≡ (ts, (store.erase t.name s).1)
  unfolding remove_same
  remove_hit name t ts s e ok = rw (e, ok) refl

  remove_miss :
      (name : List ℕ) (t : Listed) (ts : List Listed) (s : S)
      → same_name t.name name ≡ false
      → remove_same store name (t ∷ ts) s ≡ behind t (remove_same store name ts s)
  unfolding remove_same
  remove_miss name t ts s e = rw e refl

  behind_state : (t : Listed) (r : List Listed × S) → (behind t r).1 ≡ r.1
  behind_state t (ts, s) = refl

  -- Only texts under names like the removed one change.
  remove_same-frame :
      (name : List ℕ) (list : List Listed) (s : S) (k : List ℕ)
      → AllKept content cjson mac_str2hex s list
      → AreNamed list
      → same_name k name ≡ false
      → content (remove_same store name list s).1 k ≡ content s k
  unfolding remove_same
  remove_same-frame name [] s k kept named apart = refl
  remove_same-frame name (t ∷ ts) s k ((raw, held, clean, parsed, long), kept) (a, free, key, named)
        apart =
      let ok = works.1 t.name (raw ++ (0 ∷ [])) s held in
      elim (Bool-cases (same_name t.name name)) [
        | inl e ↦
            ap (λ r. content r.1 k) (remove_hit name t ts s e ok)
            ∙ laws.erased t.name s k free ok
            ∙ rw
                (differ t.name k (same_name_sym t.name k ∙ same_name_trans t.name name k e ∙ apart))
                refl
        | inr e ↦
            ap (λ r. content r.1 k) (remove_miss name t ts s e)
            ∙ ap (λ x. content x k) (behind_state t (remove_same store name ts s))
            ∙ remove_same-frame name ts s k kept named apart
      ]

  remove_nil : (name n : List ℕ) (s : S) → NoneNamed n (remove_same store name [] s).0
  unfolding remove_same
  remove_nil name n s = tt

  left_behind :
      (n : List ℕ) (t : Listed) (r : List Listed × S)
      → same_name t.name n ≡ false
      → NoneNamed n r.0
      → NoneNamed n (behind t r).0
  left_behind n t (us, s) a h = (a, h)

  -- The names of a list that the triggers behind it left are still apart from another.
  absent_left :
      (name n : List ℕ) (list : List Listed) (s : S)
      → AllKept content cjson mac_str2hex s list
      → NoneNamed n list
      → NoneNamed n (remove_same store name list s).0
  absent_left name n [] s k h = remove_nil name n s
  absent_left name n (t ∷ ts) s ((raw, held, clean, parsed, long), k) (a, h) =
      elim (Bool-cases (same_name t.name name)) [
        | inl e ↦
            subst (λ r. NoneNamed n r.0)
              (sym (remove_hit name t ts s e (works.1 t.name (raw ++ (0 ∷ [])) s held))) h
        | inr e ↦
            subst (λ r. NoneNamed n r.0) (sym (remove_miss name t ts s e))
              (left_behind n t (remove_same store name ts s) a (absent_left name n ts s k h))
      ]

  behind-IsLeft :
      (name : List ℕ) (t : Listed) (ts : List Listed) (r : List Listed × S)
      → same_name t.name name ≡ false
      → IsKept content cjson mac_str2hex r.1 t
      → IsEntry t
      → same_text t.name space_name ≡ false
      → same_text trigger_store_key t.name ≡ false
      → NoneNamed t.name r.0
      → IsLeft name ts r
      → IsLeft name (t ∷ ts) (behind t r)
  behind-IsLeft name t ts (us, s) apart kept entry free key others (k, a, named, none_named, len) =
      ((kept, k), (entry, a), (others, free, key, named), (apart, none_named), omega (arith, len))

  pub remove_same-IsLeft :
      (name : List ℕ) (list : List Listed) (s : S)
      → AllKept content cjson mac_str2hex s list
      → AllEntries list
      → AreNamed list
      → IsLeft name list (remove_same store name list s)
  unfolding remove_same
  remove_same-IsLeft name [] s k a n = (tt, tt, tt, tt, omega arith)
  remove_same-IsLeft name (t ∷ ts) s ((raw, held, clean, parsed, long), k) (entry, a)
        (others, free, key, n) =
      let ok = works.1 t.name (raw ++ (0 ∷ [])) s held in
      elim (Bool-cases (same_name t.name name)) [
        | inl e ↦ subst (IsLeft name (t ∷ ts)) (sym (remove_hit name t ts s e ok)) (
          kept-Agree s (store.erase t.name s).1 ts (erase-Agree t.name s ts free others ok) k,
          a,
          n,
          named_as t name ts e others,
          omega arith,
        )
        | inr e ↦ subst (IsLeft name (t ∷ ts)) (sym (remove_miss name t ts s e)) (
            behind-IsLeft name t ts (remove_same store name ts s) e
              (raw, remove_same-frame name ts s t.name k n e ∙ held, clean, parsed, long) entry free
              key (absent_left name t.name ts s k others) (remove_same-IsLeft name ts s k a n))
      ]
