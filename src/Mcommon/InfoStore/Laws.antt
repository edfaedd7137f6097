-- ===== src/Mcommon/InfoStore/Laws.antt =====
-- The information as a dictionary: what its clients rely on, and that the code provides it.
use mathlib.Core.Path.{subst}
use pio_esp_mdf_example.Prelude.{
  ℕ, ◌<◌, ◌≤◌, ◌≡◌, ◌≢◌, refl, ◌∙◌, List, [], ◌∷◌, Option, none, some, true, false, length, ◌==◌,
  if◌then◌else◌, arith, Bool-cases, inl, inr,
}
use pio_esp_mdf_example.Mcommon.Err.{Err, mdf_ok}
use pio_esp_mdf_example.Mcommon.InfoStore.{
  Text, Nvs, Info, info_init, initialised, first_init, space_name, same_text, save_opened,
  erase_opened, load_opened, on_nvs, info_save, LengthType, number_length, pointer_length,
  other_length, load_initialised, info_load,
}

-- The operations that a client has
pub record Store (S : Type 0) : Type 0 where
  pub save : Text → List ℕ → S → Err × S
  pub erase : Text → S → Err × S
  pub load : Text → ℕ → S → Err × Option (List ℕ)

abbrev pub info_store : {S : Type 0} → Nvs S → Store S
info_store nvs = record { save = save_opened nvs; erase = erase_opened nvs; load = load_opened nvs }

-- A dictionary, whose operations work whenever they return MDF_OK
pub record IsStore {S : Type 0} (store : Store S) (content : S → Text → Option (List ℕ))
    : Type 0 where
  pub saved :
      (k : Text) (v : List ℕ) (s : S) (k' : Text)
      → (store.save k v s).0 ≡ mdf_ok
      → content (store.save k v s).1 k' ≡ (if same_text k k' then some v else content s k')
  pub erased :
      (k : Text) (s : S) (k' : Text)
      → same_text k space_name ≡ false
      → (store.erase k s).0 ≡ mdf_ok
      → content (store.erase k s).1 k' ≡ (if same_text k k' then none else content s k')
  pub loaded :
      (k : Text) (v : List ℕ) (n : ℕ) (s : S)
      → content s k ≡ some v
      → length v ≤ n
      → store.load k n s ≡ (mdf_ok, some v)
  pub missing :
      (k : Text) (n : ℕ) (s : S) → content s k ≡ none → ((store.load k n s).0 == mdf_ok) ≡ false

-- What the NVS library documents: the namespace opens, a call that returns ESP_OK has done its
-- work, an erased key that is not found was not there, and a commit changes no value.
pub record IsNvs {S : Type 0} (nvs : Nvs S) (content : S → Text → Option (List ℕ)) : Type 0 where
  pub opens : (s : S) → nvs.open_space s ≡ mdf_ok
  pub set :
      (k : Text) (v : List ℕ) (s : S) (k' : Text)
      → (nvs.set_blob k v s).0 ≡ mdf_ok
      → content (nvs.set_blob k v s).1 k' ≡ (if same_text k k' then some v else content s k')
  pub erased :
      (k : Text) (s : S) (k' : Text)
      → (nvs.erase_key k s).0 ≡ mdf_ok
      → content (nvs.erase_key k s).1 k' ≡ (if same_text k k' then none else content s k')
  pub not_there :
      (k : Text) (s : S) (k' : Text)
      → (nvs.erase_key k s).0 ≡ nvs.not_found
      → content (nvs.erase_key k s).1 k' ≡ (if same_text k k' then none else content s k')
  pub committed : (s : S) (k : Text) → content (nvs.commit s) k ≡ content s k
  pub get :
      (k : Text) (v : List ℕ) (n : ℕ) (s : S)
      → content s k ≡ some v
      → length v ≤ n
      → nvs.get_blob k n s ≡ (mdf_ok, some v)
  pub absent :
      (k : Text) (n : ℕ) (s : S) → content s k ≡ none → nvs.get_blob k n s ≡ (nvs.not_found, none)
  pub code : (nvs.not_found == mdf_ok) ≡ false

pub same_text_self : (k : Text) → same_text k k ≡ true
unfolding same_text
same_text_self [] = refl
same_text_self (c ∷ cs) = ground (arith, same_text_self cs)

zero_test : (n : ℕ) → 0 < n → (n == 0) ≡ false
zero_test n h = ground (arith, h)

module _ {S : Type 0} (nvs : Nvs S) (content : S → Text → Option (List ℕ))
    (laws : IsNvs nvs content) where
  save_saved :
      (k : Text) (v : List ℕ) (s : S) (k' : Text)
      → (save_opened nvs k v s).0 ≡ mdf_ok
      → content (save_opened nvs k v s).1 k' ≡ (if same_text k k' then some v else content s k')
  unfolding save_opened
  save_saved k v s k' = rw (laws.opens s) (λ (h : (nvs.set_blob k v s).0 ≡ mdf_ok).
      laws.committed (nvs.set_blob k v s).1 k' ∙ laws.set k v s k' h)

  erase_erased :
      (k : Text) (s : S) (k' : Text)
      → same_text k space_name ≡ false
      → (erase_opened nvs k s).0 ≡ mdf_ok
      → content (erase_opened nvs k s).1 k' ≡ (if same_text k k' then none else content s k')
  unfolding erase_opened
  erase_erased k s k' apart =
      rw (laws.opens s, apart)
        (elim (Bool-cases ((nvs.erase_key k s).0 == nvs.not_found)) [
          | inl e ↦ rw e (λ h.
              laws.committed (nvs.erase_key k s).1 k' ∙ laws.not_there k s k' (ground (arith, e)))
          | inr e ↦ rw e (λ (h : (nvs.erase_key k s).0 ≡ mdf_ok).
              laws.committed (nvs.erase_key k s).1 k' ∙ laws.erased k s k' h)
        ])

  load_loaded :
      (k : Text) (v : List ℕ) (n : ℕ) (s : S)
      → content s k ≡ some v
      → length v ≤ n
      → load_opened nvs k n s ≡ (mdf_ok, some v)
  unfolding load_opened
  load_loaded k v n s e h = rw (laws.opens s) (laws.get k v n s e h)

  load_missing :
      (k : Text) (n : ℕ) (s : S)
      → content s k ≡ none
      → ((load_opened nvs k n s).0 == mdf_ok) ≡ false
  unfolding load_opened
  load_missing k n s e = rw (laws.opens s, laws.absent k n s e) laws.code

  -- Over an NVS library that works as documented, the parts of mdf_info_save, mdf_info_erase and
  -- __mdf_info_load behind the initialisation are a dictionary: what is saved is loaded again in a
  -- buffer that is large enough, erasing a key other than the name of the namespace leaves it
  -- without a value, also where it had none, other keys stay as they are, and loading a key that
  -- has no value is an error.
  pub info_store-IsStore : IsStore (info_store nvs) content
  info_store-IsStore = record {
    saved = save_saved;
    erased = erase_erased;
    loaded = load_loaded;
    missing = load_missing;
  }

  loaded_again :
      (k : Text) (v : List ℕ) (size : ℕ) (m : Info S) (type : LengthType)
      → m.init_flag ≡ true
      → type ≢ other_length
      → 0 < size
      → content m.nvs k ≡ some v
      → length v ≤ size
      → info_load nvs k size type m ≡ some (mdf_ok, some v, m)
  unfolding info_load info_init load_initialised
  loaded_again k v size m number_length init t pos e h =
      rw (zero_test size pos, init, load_loaded k v size m.nvs e h) refl
  loaded_again k v size m pointer_length init t pos e h =
      rw (zero_test size pos, init, load_loaded k v size m.nvs e h) refl
  loaded_again k v size m other_length init t pos e h = absurd (t refl)

  -- What a saving left, if it succeeded
  abbrev Saved : Text → List ℕ → Option (Err × Info S) → Type 0
  Saved k v none = Unit
  Saved k v (some (ret, m)) =
      ret ≡ mdf_ok → (0 < length v) × (m.init_flag ≡ true) × (content m.nvs k ≡ some v)

  abbrev Initialised : Option (Info S) → Type 0
  Initialised none = Unit
  Initialised (some m) = m.init_flag ≡ true

  initialised-Initialised : (o : Option S) → Initialised (initialised o)
  initialised-Initialised none = tt
  initialised-Initialised (some s) = refl

  info_init-Initialised : (m : Info S) → Initialised (info_init nvs m)
  unfolding info_init
  info_init-Initialised m = elim (Bool-cases m.init_flag) [
    | inl e ↦ rw e refl
    | inr e ↦ rw e (initialised-Initialised (first_init nvs m.nvs))
  ]

  on_nvs-Saved :
      (k : Text) (v : List ℕ) (o : Option (Info S))
      → 0 < length v
      → Initialised o
      → Saved k v (on_nvs (save_opened nvs k v) o)
  on_nvs-Saved k v none pos h = tt
  on_nvs-Saved k v (some m) pos h =
      λ ok. (pos, h, save_saved k v m.nvs k ok ∙ rw (same_text_self k) refl)

  info_save-Saved : (k : Text) (v : List ℕ) (m : Info S) → Saved k v (info_save nvs k v m)
  unfolding info_save
  info_save-Saved k v m = elim (Bool-cases (length v == 0)) [
    | inl e ↦ rw e (λ h. absurd (ground (arith, h)))
    | inr e ↦
        rw e (on_nvs-Saved k v (info_init nvs m) (ground (arith, e)) (info_init-Initialised m))
  ]

  -- Over an NVS library that works as documented: when mdf_info_save returns MDF_OK, from any state,
  -- then mdf_info_load of the same key, with a length of either type that is not less than that of
  -- the value, returns MDF_OK and this value.
  pub info_load-info_save :
      (k : Text) (v : List ℕ) (m m' : Info S) (size : ℕ) (type : LengthType)
      → info_save nvs k v m ≡ some (mdf_ok, m')
      → type ≢ other_length
      → length v ≤ size
      → info_load nvs k size type m' ≡ some (mdf_ok, some v, m')
  info_load-info_save k v m m' size type e t h =
      let (pos, init, held) = subst (Saved k v) e (info_save-Saved k v m) refl in
      loaded_again k v size m' type init t (omega (arith, pos, h)) held h
