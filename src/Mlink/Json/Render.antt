-- ===== src/Mlink/Json/Render.antt =====
-- The text that a sequence of calls builds, against a rendering of the whole object or array at
-- once.
use mathlib.Core.Path.{subst}
use mathlib.Core.List.{append_assoc}
use pio_esp_mdf_example.Prelude.{
  ℕ, zero, suc, ◌+◌, ◌<◌, ◌≡◌, ◌≢◌, refl, sym, ap, ◌∙◌, false, List, [], ◌∷◌, ◌++◌, Option, none,
  some, length, replicate, get_or, arith, ◌==◌,
}
use pio_esp_mdf_example.Mlink.Json.{
  JsonApi, Value, integer, string, other, missing, pointer, array, Outcome, fault, returned, comma,
  strlen, identifier, closing, key_text, value_len, into_room, open_member, print_key, close_member,
  make_room, to_pointer, pack_pointer, json_pack,
}
use pio_esp_mdf_example.Mlink.Json.Bytes.{IsNonZero, IsAt, strlen_text}
use pio_esp_mdf_example.Mlink.Json.Places.{
  print_key-IsAt, Printed, close_member-Printed, open_fresh, open_again,
}
use pio_esp_mdf_example.Mlink.Json.Members.{
  Member, value_text, member_text, IsPrintable, AllMembers, append-IsNonZero, member_text-IsNonZero,
  pack_into_prints, IsHeap, realloc-IsText,
}

-- The calls for the members, one after the other
abbrev pub pack_all : JsonApi → Outcome → List Member → Outcome
pack_all api o [] = o
pack_all api fault (m ∷ ms) = fault
pack_all api (returned ret target) ((key, value) ∷ ms) =
    pack_all api (json_pack api target (some key) value) ms

-- The members after the first, each with its comma
abbrev pub following : JsonApi → List Member → List ℕ
following api [] = []
following api (m ∷ ms) = (comma ∷ []) ++ (member_text api m ++ following api ms)

-- The whole object or array
abbrev pub render : JsonApi → ℕ → Member → List Member → List ℕ
render api i m ms = (i ∷ []) ++ (member_text api m ++ (following api ms ++ (closing i ∷ [])))

-- The outcome is the text behind the pointer, and its length.
abbrev pub Built : Outcome → List ℕ → Type 0
Built fault s = ⊥
Built (returned ret missing) s = ⊥
Built (returned ret (pointer none)) s = ⊥
Built (returned ret (pointer (some memory))) s = Printed (ret, memory) s
Built (returned ret (array memory)) s = ⊥

-- One call, given the memory
pack_prints :
    (api : JsonApi) (key : List ℕ) (v : Value) (old : Option (List ℕ)) (memory : List ℕ)
    → IsPrintable v
    → make_room api (value_len v + length key + 16) old ≡ some memory
    → json_pack api (pointer old) (some key) v
      ≡ to_pointer
          (some (close_member key (value_text api v) (print_key key (open_member key memory))))
unfolding json_pack pack_pointer into_room
pack_prints api key (integer n) old memory h e =
    ap (into_room api key (integer n)) e
    ∙ ap to_pointer (pack_into_prints api key (integer n) memory h)
pack_prints api key (string none) old memory h e = elim h [ ]
pack_prints api key (string (some s)) old memory h e =
    ap (into_room api key (string (some s))) e
    ∙ ap to_pointer (pack_into_prints api key (string (some s)) memory h)
pack_prints api key other old memory h e = elim h [ ]

-- The text of one call, from where the printer stands after the first bracket or the comma
prints_one :
    (api : JsonApi) (i : ℕ) (m : Member) (memory p : List ℕ)
    → identifier m.0 ≡ i
    → IsAt (open_member m.0 memory) p
    → Printed
        (close_member m.0 (value_text api m.1) (print_key m.0 (open_member m.0 memory)))
        (p ++ (member_text api m ++ (closing i ∷ [])))
prints_one api i (key, v) memory p same h =
    let tail : List ℕ = value_text api v ++ (closing (identifier key) ∷ []) in
    subst
      (λ t.
        Printed (close_member key (value_text api v) (print_key key (open_member key memory))) t)
      (append_assoc p (key_text key) tail
        ∙ ap (λ r. p ++ r)
            (sym (append_assoc (key_text key) (value_text api v) (closing (identifier key) ∷ [])))
        ∙ ap (λ k. p ++ (member_text api (key, v) ++ (closing k ∷ []))) same)
      (close_member-Printed key (value_text api v) (print_key key (open_member key memory))
        (p ++ key_text key)
        (print_key-IsAt key (open_member key memory).0 (open_member key memory).1 p h))

closing-IsNonZero : (i : ℕ) → IsNonZero (closing i ∷ [])
closing-IsNonZero i = (ground arith, tt)

make_room_again :
    (api : JsonApi) (size : ℕ) (memory : List ℕ)
    → make_room api size (some memory) ≡ some (api.realloc memory (size + strlen memory))
unfolding make_room
make_room_again api size memory = refl

-- A member behind a comma lengthens the text, and the bracket moves to its end.
longer :
    (base : List ℕ) (text rest end : List ℕ)
    → ((base ++ (comma ∷ [])) ++ (text ++ end) ≡ (base ++ ((comma ∷ []) ++ text)) ++ end)
      × ((base ++ ((comma ∷ []) ++ text)) ++ (rest ++ end)
          ≡ base ++ (((comma ∷ []) ++ (text ++ rest)) ++ end))
longer base text rest end = (simp append_assoc refl, simp append_assoc refl)

identifier_nonzero : (key : List ℕ) (i : ℕ) → identifier key ≡ i → i ≢ 0
identifier_nonzero key i e = ground (arith, e)

-- New memory holds no text.
fresh : (key : List ℕ) (n : ℕ) → (get_or (replicate n 0) 0 0 == identifier key) ≡ false
fresh key zero = ground arith
fresh key (suc n) = ground arith

make_room_first :
    (api : JsonApi) (size : ℕ) (memory : List ℕ)
    → api.calloc size ≡ some memory
    → make_room api size none ≡ some memory
unfolding make_room
make_room_first api size memory e = e

module _ (api : JsonApi) (heap : IsHeap api) (plain : (n : ℕ) → IsNonZero (api.decimal n)) where
  -- The members after the first, on a text whose last bracket is still to be overwritten
  packs_following :
      (i ret : ℕ) (cs memory : List ℕ) (ms : List Member)
      → i ≢ 0
      → IsNonZero cs
      → AllMembers i ms
      → Printed (ret, memory) ((i ∷ cs) ++ (closing i ∷ []))
      → Built
          (pack_all api (returned ret (pointer (some memory))) ms)
          ((i ∷ cs) ++ (following api ms ++ (closing i ∷ [])))
  unfolding to_pointer
  packs_following i ret cs memory [] i≢0 nonzero all h = h
  packs_following i ret cs memory ((key, v) ∷ ms) i≢0 nonzero ((same, k, printable), all)
        (r, text) =
      let old : List ℕ = (i ∷ cs) ++ (closing i ∷ []) in
      let n : ℕ = value_len v + length key + 16 + strlen memory in
      let room : List ℕ = api.realloc memory n in
      let mt : List ℕ = member_text api (key, v) in
      let st : ℕ × List ℕ =
        close_member key (value_text api v) (print_key key (open_member key room)) in
      let clean : IsNonZero old =
        (i≢0, append-IsNonZero cs (closing i ∷ []) nonzero (closing-IsNonZero i)) in
      let fits : length old < n = omega (arith, ap strlen text.1 ∙ strlen_text old text.0 clean) in
      let (sofar, whole) = longer (i ∷ cs) mt (following api ms) (closing i ∷ []) in
      let one : Printed st ((i ∷ (cs ++ ((comma ∷ []) ++ mt))) ++ (closing i ∷ [])) =
        subst (Printed st) sofar (
          prints_one api i (key, v) room ((i ∷ cs) ++ (comma ∷ [])) same
            (open_again key room i (closing i) cs same clean
              (realloc-IsText api memory old n heap text fits))) in
      subst
        (λ o.
          Built (pack_all api o ms)
            ((i ∷ cs) ++ (following api ((key, v) ∷ ms) ++ (closing i ∷ []))))
        (sym (
          pack_prints api key v (some memory) room printable
            (make_room_again api (value_len v + length key + 16) memory)))
        (subst (Built (pack_all api (returned st.0 (pointer (some st.1))) ms)) whole (
          packs_following i st.0 (cs ++ ((comma ∷ []) ++ mt)) st.1 ms i≢0
            (append-IsNonZero cs ((comma ∷ []) ++ mt) nonzero
              (omega arith, member_text-IsNonZero api plain i (key, v) (same, k, printable)))
            all one))

  -- Where memory is there and the text of a number has no NUL, calls of mlink_json_pack that start
  -- with a null pointer and have each a key and a value that can be printed, the keys all naming an
  -- object or all an array, end with the text of that object or array with these members in their
  -- order, a comma between each two, and return its length.
  pub pack_all_renders :
      (there : (n : ℕ) → api.calloc n ≡ some (replicate n 0)) (i ret : ℕ) (m : Member)
      (ms : List Member)
      → AllMembers i (m ∷ ms)
      → Built (pack_all api (returned ret (pointer none)) (m ∷ ms)) (render api i m ms)
  unfolding to_pointer
  pack_all_renders there i ret (key, v) ms ((same, k, printable), all) =
      let n : ℕ = value_len v + length key + 16 in
      let room : List ℕ = replicate n 0 in
      let mt : List ℕ = member_text api (key, v) in
      let st : ℕ × List ℕ =
        close_member key (value_text api v) (print_key key (open_member key room)) in
      let one : Printed st ((i ∷ []) ++ (mt ++ (closing i ∷ []))) =
        prints_one api i (key, v) room (i ∷ []) same
          (subst (λ j. IsAt (open_member key room) (j ∷ [])) same
            (open_fresh key room (fresh key n))) in
      subst (λ o. Built (pack_all api o ms) (render api i (key, v) ms))
        (sym (pack_prints api key v none room printable (make_room_first api n room (there n))))
        (subst (Built (pack_all api (returned st.0 (pointer (some st.1))) ms))
          (append_assoc (i ∷ []) mt (following api ms ++ (closing i ∷ [])))
          (packs_following i st.0 mt st.1 ms (identifier_nonzero key i same)
            (member_text-IsNonZero api plain i (key, v) (same, k, printable)) all one))

  following-IsNonZero : (i : ℕ) (ms : List Member) → AllMembers i ms → IsNonZero (following api ms)
  following-IsNonZero i [] all = tt
  following-IsNonZero i (m ∷ ms) (h, all) = (
    omega arith,
    append-IsNonZero (member_text api m) (following api ms) (member_text-IsNonZero api plain i m h)
        (following-IsNonZero i ms all),
  )

  pub render-IsNonZero :
      (i : ℕ) (m : Member) (ms : List Member)
      → AllMembers i (m ∷ ms)
      → IsNonZero (render api i m ms)
  render-IsNonZero i (key, v) ms ((same, k, h), all) = (
    identifier_nonzero key i same,
    append-IsNonZero (member_text api (key, v)) (following api ms ++ (closing i ∷ []))
        (member_text-IsNonZero api plain i (key, v) (same, k, h))
        (append-IsNonZero (following api ms) (closing i ∷ []) (following-IsNonZero i ms all)
          (closing-IsNonZero i)),
  )
