-- ===== src/Mlink/Parse/Slots.antt =====
-- Where the words of an array go.
use pio_esp_mdf_example.Prelude.{
  ℕ, ◌+◌, ◌≤◌, ◌<◌, ◌↔◌, ◌⊎◌, inl, inr, List, [], ◌∷◌, none, some, length, arith,
}
use pio_esp_mdf_example.Mlink.Parse.{
  Element, number_element, text_element, object_element, other_element, array_item, ValueType, Slot,
  Written, nothing, bits, characters, copy, words, parse_elements, parse_content,
}

abbrev pub AreNumbers : List Element → Type 0
AreNumbers [] = Unit
AreNumbers (number_element n ∷ es) = AreNumbers es
AreNumbers (e ∷ es) = ⊥

-- Texts, and objects that cJSON prints
abbrev pub AreTexts : List Element → Type 0
AreTexts [] = Unit
AreTexts (text_element t ∷ es) = AreTexts es
AreTexts (object_element (some t) ∷ es) = AreTexts es
AreTexts (e ∷ es) = ⊥

abbrev pub AllBelow : ℕ → List (ℕ × Slot) → Type 0
AllBelow size [] = Unit
AllBelow size ((i, w) ∷ ws) = (i < size) × AllBelow size ws

-- Only words are written, and all of them inside an array of this size.
abbrev pub AreInside : ℕ → Written → Type 0
AreInside size nothing = ⊥
AreInside size (bits w n) = ⊥
AreInside size (characters t) = ⊥
AreInside size (copy t) = ⊥
AreInside size (words ws) = AllBelow size ws

numbers_iff :
    (size i j : ℕ) (es : List Element)
    → i ≤ size
    → AreNumbers es
    → AllBelow size (parse_elements i j es).1 ↔ (i + length es ≤ size)
unfolding parse_elements
numbers_iff size i j [] h u = (λ b. omega (arith, h), λ le. tt)
numbers_iff size i j (number_element n ∷ es) h u = (
  λ (b, bs). omega (arith, b, (numbers_iff size (i + 1) j es (omega (arith, b)) u).0 bs),
  λ le. (
    omega (arith, le),
    (numbers_iff size (i + 1) j es (omega (arith, le)) u).1 (omega (arith, le)),
  ),
)
numbers_iff size i j (text_element t ∷ es) h u = elim u [ ]
numbers_iff size i j (object_element o ∷ es) h u = elim u [ ]
numbers_iff size i j (other_element ∷ es) h u = elim u [ ]

texts_iff :
    (size i j : ℕ) (es : List Element)
    → j ≤ size
    → AreTexts es
    → AllBelow size (parse_elements i j es).1 ↔ (j + length es ≤ size)
unfolding parse_elements
texts_iff size i j [] h u = (λ b. omega (arith, h), λ le. tt)
texts_iff size i j (number_element n ∷ es) h u = elim u [ ]
texts_iff size i j (text_element t ∷ es) h u = (
  λ (b, bs). omega (arith, b, (texts_iff size (i + 1) (j + 1) es (omega (arith, b)) u).0 bs),
  λ le. (
    omega (arith, le),
    (texts_iff size (i + 1) (j + 1) es (omega (arith, le)) u).1 (omega (arith, le)),
  ),
)
texts_iff size i j (object_element none ∷ es) h u = elim u [ ]
texts_iff size i j (object_element (some t) ∷ es) h u = (
  λ (b, bs). omega (arith, b, (texts_iff size (i + 1) (j + 1) es (omega (arith, b)) u).0 bs),
  λ le. (
    omega (arith, le),
    (texts_iff size (i + 1) (j + 1) es (omega (arith, le)) u).1 (omega (arith, le)),
  ),
)
texts_iff size i j (other_element ∷ es) h u = elim u [ ]

-- For a key that names an array all of numbers, or all of texts and objects, the default case of
-- mlink_json_parse writes inside an array of `size` words exactly when the request's array has at
-- most `size` elements: nothing else bounds the writing.
pub array_inside_iff :
    (type : ValueType) (size n : ℕ) (es : List Element)
    → AreNumbers es ⊎ AreTexts es
    → AreInside size (parse_content type n (array_item es)).1 ↔ (length es ≤ size)
unfolding parse_content
array_inside_iff type size n es (inl u) =
    let (f, g) = numbers_iff size 0 0 es (omega arith) u in
    (λ b. omega (arith, f b), λ le. g (omega (arith, le)))
array_inside_iff type size n es (inr u) =
    let (f, g) = texts_iff size 0 0 es (omega arith) u in
    (λ b. omega (arith, f b), λ le. g (omega (arith, le)))
