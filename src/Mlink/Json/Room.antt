-- ===== src/Mlink/Json/Room.antt =====
-- The room that the printers ask for, and what they write.
use mathlib.Core.Path.{subst}
use pio_esp_mdf_example.Prelude.{
  ℕ, zero, suc, ◌+◌, ◌-◌, ◌≤◌, ◌≡◌, refl, sym, ap, ◌∙◌, List, [], ◌∷◌, ◌++◌, Option, none, some,
  length, length-append, length-replicate, replicate, get_or, arith, ◌==◌, ◌||◌, inl, inr,
  Bool-cases,
}
use pio_esp_mdf_example.Mlink.Json.{
  JsonApi, Value, integer, string, other, missing, pointer, array, Outcome, fault, returned, quote,
  colon, comma, brace, bracket, strlen, print_at, identifier, closing, key_text, open_member,
  print_key, close_member, string_text, pack_into, value_len, make_room, to_pointer, into_room,
  pack_pointer, json_pack,
}
use pio_esp_mdf_example.Mlink.Json.Bytes.{
  IsNonZero, IsText, length-write_at, length-print_at, strlen_text,
}
use pio_esp_mdf_example.Mlink.Json.Members.{IsHeap, realloc-IsText}

length-key_text : (key : List ℕ) → length (key_text key) ≤ length key + 3
length-key_text key = elim (Bool-cases (get_or key 0 0 == bracket)) [
  | inl e ↦ rw e (omega arith)
  | inr e ↦ rw e (omega (arith, length-append key (quote ∷ colon ∷ [])))
]

length-string_text : (s : List ℕ) → length (string_text s) ≤ length s + 2
unfolding string_text
length-string_text s = elim (Bool-cases ((get_or s 0 0 == brace) || (get_or s 0 0 == bracket))) [
  | inl e ↦ rw e (omega arith)
  | inr e ↦ rw e (omega (arith, length-append s (quote ∷ [])))
]

-- The first bracket or the comma
open_member_inside :
    (key memory : List ℕ)
    → 1 ≤ length memory
    → strlen memory ≤ length memory
    → (length (open_member key memory).1 ≡ length memory)
      × ((open_member key memory).0 ≤ strlen memory + 1)
unfolding open_member
open_member_inside key memory some_room h =
    elim (Bool-cases (get_or memory 0 0 == identifier key)) [
      | inl e ↦ rw e (
        length-write_at (strlen memory - 1) (comma ∷ []) memory (omega (arith, h, some_room)),
        omega arith,
      )
      | inr e ↦ rw e (length-write_at 0 (identifier key ∷ []) memory some_room, omega arith)
    ]

print_key_inside :
    (key memory : List ℕ) (index : ℕ)
    → index + length key + 4 ≤ length memory
    → (length (print_key key (index, memory)).1 ≡ length memory)
      × ((print_key key (index, memory)).0 ≤ index + length key + 3)
unfolding print_key
print_key_inside key memory index h = elim (Bool-cases (get_or key 0 0 == bracket)) [
  | inl e ↦ rw e (refl, omega arith)
  | inr e ↦
      let text : List ℕ = (quote ∷ []) ++ (key ++ (quote ∷ colon ∷ [])) in
      let size : length text ≡ length key + 3 =
        omega (arith, length-append key (quote ∷ colon ∷ [])) in
      rw e (length-print_at index text memory (omega (arith, h, size)), omega (arith, size))
]

close_member_inside :
    (key text : List ℕ) (st : ℕ × List ℕ)
    → st.0 + length text + 2 ≤ length st.1
    → length (close_member key text st).1 ≡ length st.1
unfolding close_member
close_member_inside key text (index, memory) h =
    let printed : length (print_at index text memory) ≡ length memory =
      length-print_at index text memory (omega (arith, h)) in
    length-write_at (index + length text) (closing (identifier key) ∷ 0 ∷ [])
      (print_at index text memory) (omega (arith, h, printed))
    ∙ printed

-- All of one call, in memory that is large enough
printed_inside :
    (key text memory : List ℕ)
    → strlen memory + length key + length text + 6 ≤ length memory
    → length (close_member key text (print_key key (open_member key memory))).1 ≡ length memory
printed_inside key text memory h =
    let (l, i) = open_member_inside key memory (omega (arith, h)) (omega (arith, h)) in
    let (l', i') =
      print_key_inside key (open_member key memory).1 (open_member key memory).0
        (omega (arith, l, i, h)) in
    close_member_inside key text (print_key key (open_member key memory))
      (omega (arith, i, i', l, l', h))
    ∙ l'
    ∙ l

abbrev pub IsHeld : Option (List ℕ) → Type 0
IsHeld none = Unit
IsHeld (some memory) = (s : List ℕ) × IsNonZero s × IsText memory s

-- The length of the text before the call
abbrev pub held : Option (List ℕ) → ℕ
held none = 0
held (some memory) = strlen memory

abbrev pub IsGiven : Value → Type 0
IsGiven (integer n) = Unit
IsGiven (string none) = ⊥
IsGiven (string (some s)) = Unit
IsGiven other = Unit

-- The pointer is set to memory of this size, and no byte was written past its end: the list would
-- be longer.
abbrev pub StaysInside : Outcome → ℕ → Type 0
StaysInside fault n = ⊥
StaysInside (returned ret missing) n = ⊥
StaysInside (returned ret (pointer none)) n = ⊥
StaysInside (returned ret (pointer (some memory))) n = length memory ≡ n
StaysInside (returned ret (array memory)) n = ⊥

strlen-zeros : (n : ℕ) → strlen (replicate n 0) ≡ 0
unfolding strlen
strlen-zeros zero = refl
strlen-zeros (suc n) = refl

module _ (api : JsonApi) (heap : IsHeap api) (short : (n : ℕ) → length (api.decimal n) ≤ 11) where
  pack_into_inside :
      (key : List ℕ) (v : Value) (memory : List ℕ) (n h : ℕ)
      → IsGiven v
      → length memory ≡ value_len v + length key + 16 + h
      → strlen memory ≡ h
      → StaysInside (to_pointer (pack_into api key v memory)) (value_len v + length key + 16 + h)
  unfolding pack_into to_pointer value_len
  pack_into_inside key (integer n) memory k h given l e =
      printed_inside key (api.decimal n) memory (omega (arith, short n, l, e)) ∙ l
  pack_into_inside key (string none) memory k h given l e = elim given [ ]
  pack_into_inside key (string (some s)) memory k h given l e =
      printed_inside key (string_text s) memory (omega (arith, length-string_text s, l, e)) ∙ l
  pack_into_inside key other memory k h given l e =
      let (l1, i1) = open_member_inside key memory (omega (arith, l)) (omega (arith, l, e)) in
      let (l2, i2) =
        print_key_inside key (open_member key memory).1 (open_member key memory).0
          (omega (arith, l, l1, i1, e)) in
      l2 ∙ l1 ∙ l

  inside_room :
      (there : (n : ℕ) → api.calloc n ≡ some (replicate n 0)) (old : Option (List ℕ)) (key : List ℕ)
      (v : Value)
      → IsHeld old
      → IsGiven v
      → StaysInside (pack_pointer api key v old) (value_len v + length key + 16 + held old)
  unfolding pack_pointer into_room make_room
  inside_room there none key v is given =
      let n : ℕ = value_len v + length key + 16 in
      subst (λ o. StaysInside (into_room api key v o) (n + 0)) (sym (there n))
        (pack_into_inside key v (replicate n 0) n 0 given
          (omega (arith, length-replicate {A = ℕ} n 0)) (strlen-zeros n))
  inside_room there (some memory) key v (s, clean, text) given =
      let n : ℕ = value_len v + length key + 16 + strlen memory in
      let e : strlen memory ≡ length s = ap strlen text.1 ∙ strlen_text s text.0 clean in
      let (q, m) = realloc-IsText api memory s n heap text (omega (arith, e)) in
      pack_into_inside key v (api.realloc memory n) n (strlen memory) given (heap.sized memory n)
        (ap strlen m ∙ strlen_text s q clean ∙ sym e)

  -- Where memory is there and "%d" prints at most eleven characters, mlink_json_pack on a null
  -- pointer, or on a pointer to any text, with any key and value but a null string, leaves the
  -- pointer at memory of the size that it asked for, and writes nothing outside.
  pub json_pack-StaysInside :
      (there : (n : ℕ) → api.calloc n ≡ some (replicate n 0)) (old : Option (List ℕ)) (key : List ℕ)
      (v : Value)
      → IsHeld old
      → IsGiven v
      → StaysInside
          (json_pack api (pointer old) (some key) v)
          (value_len v + length key + 16 + held old)
  unfolding json_pack pack_pointer
  json_pack-StaysInside there old key (integer n) is given =
      inside_room there old key (integer n) is given
  json_pack-StaysInside there old key (string none) is given = elim given [ ]
  json_pack-StaysInside there old key (string (some s)) is given =
      inside_room there old key (string (some s)) is given
  json_pack-StaysInside there old key other is given = inside_room there old key other is given
