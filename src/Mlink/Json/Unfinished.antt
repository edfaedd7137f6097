-- ===== src/Mlink/Json/Unfinished.antt =====
-- Where the printers go wrong: a value of another type, and a long text of a `double`.
use pio_esp_mdf_example.Prelude.{
  ℕ, zero, suc, ◌+◌, ◌-◌, ◌≤◌, ◌<◌, ◌≡◌, ◌↔◌, refl, ap, ◌∙◌, false, List, [], ◌∷◌, ◌++◌, none, some,
  length, length-append, length-replicate, replicate, get_or, arith, ◌==◌,
}
use pio_esp_mdf_example.Mcommon.Err.{mdf_fail}
use pio_esp_mdf_example.Mlink.Json.{
  JsonApi, other, missing, pointer, array, Outcome, fault, returned, quote, colon, comma, brace,
  bracket, strlen, write_at, print_at, identifier, closing, key_text, open_member, print_key,
  close_member, pack_into, value_len, make_room, to_pointer, into_room, pack_pointer, json_pack,
  make_room_double, json_pack_double,
}
use pio_esp_mdf_example.Mlink.Json.Bytes.{
  IsNonZero, IsText, IsAt, length-write_at, length-print_at, length-write_at_any, strlen_text,
  print_at-IsText,
}
use pio_esp_mdf_example.Mlink.Json.Members.{IsHeap, realloc-IsText, append-IsNonZero}
use pio_esp_mdf_example.Mlink.Json.Places.{open_again}

-- The call failed, and this is the text that it left behind the pointer.
abbrev pub FailedWith : Outcome → List ℕ → Type 0
FailedWith fault s = ⊥
FailedWith (returned ret missing) s = ⊥
FailedWith (returned ret (pointer none)) s = ⊥
FailedWith (returned ret (pointer (some memory))) s = (ret ≡ mdf_fail) × IsText memory s
FailedWith (returned ret (array memory)) s = ⊥

print_key-IsText :
    (key : List ℕ) (st : ℕ × List ℕ) (p : List ℕ)
    → (get_or key 0 0 == bracket) ≡ false
    → IsAt st p
    → IsText (print_key key st).1 (p ++ key_text key)
unfolding print_key
print_key-IsText key (index, memory) p e h =
    rw e (print_at-IsText index memory p ((quote ∷ []) ++ (key ++ (quote ∷ colon ∷ []))) h)

-- On an object that is already printed, a value of a type that mlink_json_pack does not know, such
-- as a `double`, gives MDF_FAIL for every key of a member, and the object has lost its closing
-- brace: its text now ends with a comma, the key and the colon.
unknown_type_unfinished :
    (api : JsonApi) (cs key memory : List ℕ)
    → IsHeap api
    → IsNonZero cs
    → (get_or key 0 0 == bracket) ≡ false
    → IsText memory ((brace ∷ cs) ++ (closing brace ∷ []))
    → FailedWith
        (json_pack api (pointer (some memory)) (some key) other)
        (((brace ∷ cs) ++ (comma ∷ [])) ++ key_text key)
unfolding json_pack pack_pointer into_room pack_into make_room to_pointer value_len
unknown_type_unfinished api cs key memory heap nonzero e text =
    let s : List ℕ = (brace ∷ cs) ++ (closing brace ∷ []) in
    let n : ℕ = 10 + length key + 16 + strlen memory in
    let clean : IsNonZero s =
      (omega arith, append-IsNonZero cs (closing brace ∷ []) nonzero (omega arith)) in
    let fits : length s < n = omega (arith, ap strlen text.1 ∙ strlen_text s text.0 clean) in
    let same : identifier key ≡ brace = rw e refl in
    (
      refl,
      print_key-IsText key (open_member key (api.realloc memory n)) ((brace ∷ cs) ++ (comma ∷ [])) e
          (open_again key (api.realloc memory n) brace (closing brace) cs same clean
            (realloc-IsText api memory s n heap text fits)),
    )

-- The number of bytes behind the pointer after the call, with those written past the end
abbrev pub extent : Outcome → ℕ
extent fault = 0
extent (returned ret missing) = 0
extent (returned ret (pointer none)) = 0
extent (returned ret (pointer (some memory))) = length memory
extent (returned ret (array memory)) = length memory

length-close_member :
    (key text : List ℕ) (index : ℕ) (memory : List ℕ)
    → index ≤ length memory
    → length (close_member key text (index, memory)).1
      ≡ index + length text + 2 + (length memory - (index + length text + 2))
unfolding close_member print_at
length-close_member key text index memory h =
    let printed : List ℕ = write_at index (text ++ (0 ∷ [])) memory in
    let end : List ℕ = closing (identifier key) ∷ 0 ∷ [] in
    let l = length-append text (0 ∷ []) in
    let l' = length-write_at_any index (text ++ (0 ∷ [])) memory h in
    omega (
      arith,
      l,
      l',
      length-write_at_any (index + length text) end printed (omega (arith, l, l', h)),
    )

first-zeros : (n : ℕ) → get_or {A = ℕ} (replicate n 0) 0 0 ≡ 0
first-zeros zero = refl
first-zeros (suc n) = refl

-- After the first bracket and the key, which fit
opened :
    (key : List ℕ)
    → (get_or key 0 0 == bracket) ≡ false
    → (st : ℕ × List ℕ) × (print_key key (open_member key (replicate (length key + 32) 0)) ≡ st)
      × (st.0 ≡ length key + 4)
      × (length st.1 ≡ length key + 32)
unfolding print_key open_member
opened key e =
    let zeros : List ℕ = replicate (length key + 32) 0 in
    let size : length zeros ≡ length key + 32 = length-replicate (length key + 32) 0 in
    let marked : List ℕ = write_at 0 (brace ∷ []) zeros in
    let size' : length marked ≡ length key + 32 =
      length-write_at 0 (brace ∷ []) zeros (omega (arith, size)) ∙ size in
    let text : List ℕ = (quote ∷ []) ++ (key ++ (quote ∷ colon ∷ [])) in
    let long : length text ≡ length key + 3 =
      omega (arith, length-append key (quote ∷ colon ∷ [])) in
    (
      (1 + length text, print_at 1 text marked),
      rw (first-zeros (length key + 32), e) refl,
      omega (arith, long),
      length-print_at 1 text marked (omega (arith, long, size')) ∙ size',
    )

-- mlink_json_pack_double on a null pointer, for the key of a member of an object, stays inside the
-- memory that it allocates exactly when "%lf" prints at most 26 characters.
pack_double_inside_iff :
    (api : JsonApi) (key text : List ℕ)
    → (get_or key 0 0 == bracket) ≡ false
    → (extent (json_pack_double api none key text) ≡ length key + 32) ↔ (length text ≤ 26)
unfolding json_pack_double make_room_double to_pointer
pack_double_inside_iff api key text e =
    let (st, e', i, l) = opened key e in
    let size : length (close_member key text st).1
        ≡ st.0 + length text + 2 + (length st.1 - (st.0 + length text + 2)) =
      length-close_member key text st.0 st.1 (omega (arith, i, l)) in
    rw e' (λ h. omega (arith, h, size, i, l), λ h. omega (arith, h, size, i, l))
