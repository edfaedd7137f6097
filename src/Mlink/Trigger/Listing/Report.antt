-- ===== src/Mlink/Trigger/Listing/Report.antt =====
-- The request for the triggers: mlink_handle_get_trigger of
-- esp-mdf/components/mlink/mlink_trigger.c.
use mathlib.Core.Path.{subst}
use pio_esp_mdf_example.Prelude.{
  ℕ, ◌≡◌, refl, sym, ap, ◌∙◌, List, [], ◌∷◌, ◌++◌, Option, none, some, not, ◌==◌, if◌then◌else◌,
  length-append, replicate, arith,
}
use pio_esp_mdf_example.Mcommon.Err.{Err, mdf_ok}
use pio_esp_mdf_example.Mcommon.InfoStore.{Text}
use pio_esp_mdf_example.Mcommon.InfoStore.Laws.{Store, IsStore}
use pio_esp_mdf_example.Mlink.Keys.{array_key, trigger_key}
use pio_esp_mdf_example.Mlink.Parse.{Cjson}
use pio_esp_mdf_example.Mlink.Json.{
  JsonApi, string, missing, pointer, array, Outcome, fault, returned, brace, bracket, json_pack,
}
use pio_esp_mdf_example.Mlink.Json.Bytes.{IsNonZero}
use pio_esp_mdf_example.Mlink.Json.Members.{Member, IsHeap, AllMembers}
use pio_esp_mdf_example.Mlink.Json.Render.{
  pack_all, render, Built, pack_all_renders, render-IsNonZero,
}
use pio_esp_mdf_example.Mlink.Trigger.Parse.{Listed}
use pio_esp_mdf_example.Mlink.Trigger.Listing.Init.{c_string}
use pio_esp_mdf_example.Mlink.Trigger.Listing.Entries.{c_string-text}
use pio_esp_mdf_example.Mlink.Trigger.Listing.Stored.{AllKept}

-- The text that was loaded
abbrev pub text_of : Option (List ℕ) → List ℕ
text_of none = []
text_of (some v) = c_string v

abbrev pub pack_raw : JsonApi → Outcome → List ℕ → Outcome
pack_raw api fault raw = fault
pack_raw api (returned n target) raw = json_pack api target (some array_key) (string (some raw))

-- The loop over the triggers, which packs their texts into an array
unfoldable pub pack_triggers :
    {S : Type 0} → JsonApi → Store S → List Listed → S → Outcome → Err × Outcome
pack_triggers api store [] s o = (mdf_ok, o)
pack_triggers api store (t ∷ ts) s o =
    let (ret, value) = store.load t.name t.raw_data_size s in
    let rest = pack_triggers api store ts s (pack_raw api o (text_of value)) in
    if not (ret == mdf_ok) then (ret, o) else rest

-- With the array, if there is one, as the member "trigger" of the response
unfoldable pub respond : JsonApi → Option (List ℕ) → Err × Outcome → Err × Outcome
respond api resp_data (ret, returned n (pointer (some json))) =
    if not (ret == mdf_ok)
    then (ret, returned 0 (pointer resp_data))
    else (ret, json_pack api (pointer resp_data) (some trigger_key) (string (some (c_string json))))
respond api resp_data (ret, returned n (pointer none)) = (ret, returned 0 (pointer resp_data))
respond api resp_data (ret, other) = (ret, fault)

-- mlink_handle_get_trigger: the result, and the response with its size
unfoldable pub get_trigger :
    {S : Type 0} → JsonApi → Store S → List Listed → S → Option (List ℕ) → Err × Outcome
get_trigger api store list s resp_data =
    respond api resp_data (pack_triggers api store list s (returned 0 (pointer none)))

abbrev pub as_members : List (List ℕ) → List Member
as_members [] = []
as_members (raw ∷ raws) = (array_key, string (some raw)) ∷ as_members raws

abbrev pub AllNonZero : List (List ℕ) → Type 0
AllNonZero [] = Unit
AllNonZero (raw ∷ raws) = IsNonZero raw × AllNonZero raws

pub members-AllNonZero :
    (raws : List (List ℕ)) → AllNonZero raws → AllMembers bracket (as_members raws)
members-AllNonZero [] h = tt
members-AllNonZero (raw ∷ raws) (h, hs) = ((refl, omega arith, h), members-AllNonZero raws hs)

pack_all_fault : (api : JsonApi) (ms : List Member) → pack_all api fault ms ≡ fault
pack_all_fault api [] = refl
pack_all_fault api (m ∷ ms) = refl

pack_all_first :
    (api : JsonApi) (o : Outcome) (raw : List ℕ) (ms : List Member)
    → pack_all api (pack_raw api o raw) ms ≡ pack_all api o ((array_key, string (some raw)) ∷ ms)
pack_all_first api fault raw ms = pack_all_fault api ms
pack_all_first api (returned n target) raw ms = refl

-- The array of the texts, and the response around it
abbrev pub array_text : JsonApi → List ℕ → List (List ℕ) → List ℕ
array_text api raw raws = render api bracket (array_key, string (some raw)) (as_members raws)

-- The result is MDF_OK, and the response the object with the array under "trigger".
abbrev pub Reports : Err × Outcome → List ℕ → Type 0
Reports (ret, o) text = (ret ≡ mdf_ok) × Built o text

respond-Reports :
    (api : JsonApi) (o : Outcome) (text : List ℕ)
    → IsHeap api
    → ((n : ℕ) → IsNonZero (api.decimal n))
    → ((n : ℕ) → api.calloc n ≡ some (replicate n 0))
    → IsNonZero text
    → Built o text
    → Reports (respond api none (mdf_ok, o)) (render api brace (trigger_key, string (some text)) [])
unfolding respond
respond-Reports api fault text heap plain there clean h = elim h [ ]
respond-Reports api (returned n missing) text heap plain there clean h = elim h [ ]
respond-Reports api (returned n (pointer none)) text heap plain there clean h = elim h [ ]
respond-Reports api (returned n (pointer (some memory))) text heap plain there clean
      (size, (q, m)) =
    rw (ap c_string m ∙ c_string-text text q clean) (
      refl,
      pack_all_renders api heap plain there brace 0 (trigger_key, string (some text)) []
          ((refl, omega arith, clean), tt),
    )
respond-Reports api (returned n (array memory)) text heap plain there clean h = elim h [ ]

module _ {S : Type 0} (store : Store S) (content : S → Text → Option (List ℕ))
    (laws : IsStore store content) (cjson : Cjson) (mac_str2hex : List ℕ → ℕ) where
  -- The texts that are stored for the triggers of a list
  abbrev pub raws_of :
      (s : S) (ts : List Listed) → AllKept content cjson mac_str2hex s ts → List (List ℕ)
  raws_of s [] k = []
  raws_of s (t ∷ ts) ((raw, held, clean, parsed, size), k) = raw ∷ raws_of s ts k

  raws-AllNonZero :
      (s : S) (ts : List Listed) (k : AllKept content cjson mac_str2hex s ts)
      → AllNonZero (raws_of s ts k)
  raws-AllNonZero s [] k = tt
  raws-AllNonZero s (t ∷ ts) ((raw, held, clean, parsed, size), k) = (clean, raws-AllNonZero s ts k)

  packs_all :
      (api : JsonApi) (s : S) (ts : List Listed) (k : AllKept content cjson mac_str2hex s ts)
      (o : Outcome)
      → pack_triggers api store ts s o ≡ (mdf_ok, pack_all api o (as_members (raws_of s ts k)))
  unfolding pack_triggers
  packs_all api s [] k o = refl
  packs_all api s (t ∷ ts) ((raw, held, clean, parsed, size), k) o =
      let value : List ℕ = raw ++ (0 ∷ []) in
      let loaded : store.load t.name t.raw_data_size s ≡ (mdf_ok, some value) =
        laws.loaded t.name value t.raw_data_size s held
          (omega (arith, size, length-append raw (0 ∷ []))) in
      rw (loaded, c_string-text raw [] clean)
        (packs_all api s ts k (pack_raw api o raw)
          ∙ ap (λ r. (mdf_ok, r)) (pack_all_first api o raw (as_members (raws_of s ts k))))

  -- The texts, of which there is one, as one member after another
  abbrev pub Shown : JsonApi → List (List ℕ) → Err × Outcome → Type 0
  Shown api [] r = r ≡ (mdf_ok, returned 0 (pointer none))
  Shown api (raw ∷ raws) r =
      Reports r (render api brace (trigger_key, string (some (array_text api raw raws))) [])

  shows :
      (api : JsonApi) (raws : List (List ℕ))
      → IsHeap api
      → ((n : ℕ) → IsNonZero (api.decimal n))
      → ((n : ℕ) → api.calloc n ≡ some (replicate n 0))
      → AllNonZero raws
      → Shown api raws
          (respond api none (mdf_ok, pack_all api (returned 0 (pointer none)) (as_members raws)))
  unfolding respond
  shows api [] heap plain there h = refl
  shows api (raw ∷ raws) heap plain there h =
      let all : AllMembers bracket (as_members (raw ∷ raws)) = members-AllNonZero (raw ∷ raws) h in
      respond-Reports api (pack_all api (returned 0 (pointer none)) (as_members (raw ∷ raws)))
        (array_text api raw raws) heap plain there
        (render-IsNonZero api heap plain bracket (array_key, string (some raw)) (as_members raws)
          all)
        (pack_all_renders api heap plain there bracket 0 (array_key, string (some raw))
          (as_members raws) all)

  -- Where memory is there and the text of every trigger of the list is stored, mlink_handle_get_trigger
  -- returns MDF_OK, and its response is the object with one member "trigger", the array of these texts
  -- in the order of the list, printed as a whole; for an empty list there is none.
  pub get_trigger_shows :
      (api : JsonApi) (s : S) (ts : List Listed)
      → IsHeap api
      → ((n : ℕ) → IsNonZero (api.decimal n))
      → ((n : ℕ) → api.calloc n ≡ some (replicate n 0))
      → (k : AllKept content cjson mac_str2hex s ts)
      → Shown api (raws_of s ts k) (get_trigger api store ts s none)
  unfolding get_trigger
  get_trigger_shows api s ts heap plain there k =
      subst (λ r. Shown api (raws_of s ts k) (respond api none r))
        (sym (packs_all api s ts k (returned 0 (pointer none))))
        (shows api (raws_of s ts k) heap plain there (raws-AllNonZero s ts k))
