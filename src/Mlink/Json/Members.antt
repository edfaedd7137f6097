-- ===== src/Mlink/Json/Members.antt =====
-- The members of an object or array: what each call of the printer makes of the text before it.
use mathlib.Core.List.{append_assoc}
use pio_esp_mdf_example.Prelude.{
  ℕ, zero, suc, ◌-◌, ◌<◌, ◌≡◌, refl, sym, ap, ◌∙◌, min, List, [], ◌∷◌, ◌++◌, none, some, length,
  length-append, take, drop, take-append-drop, get_or, arith, ◌==◌, ◌||◌, inl, inr, Bool-cases,
}
use pio_esp_mdf_example.Mlink.Json.{
  JsonApi, Value, integer, string, other, quote, colon, brace, bracket, identifier, key_text,
  open_member, print_key, close_member, string_text, pack_into,
}
use pio_esp_mdf_example.Mlink.Json.Bytes.{IsNonZero, IsText}

abbrev pub Member : Type 0
Member = List ℕ × Value

abbrev pub value_text : JsonApi → Value → List ℕ
value_text api (integer n) = api.decimal n
value_text api (string none) = []
value_text api (string (some s)) = string_text s
value_text api other = []

abbrev pub member_text : JsonApi → Member → List ℕ
member_text api (key, value) = key_text key ++ value_text api value

abbrev pub IsPrintable : Value → Type 0
IsPrintable (integer n) = Unit
IsPrintable (string none) = ⊥
IsPrintable (string (some s)) = IsNonZero s
IsPrintable other = ⊥

-- A member of the object or array that starts with `i`
abbrev pub IsMember : ℕ → Member → Type 0
IsMember i (key, value) = (identifier key ≡ i) × IsNonZero key × IsPrintable value

abbrev pub AllMembers : ℕ → List Member → Type 0
AllMembers i [] = Unit
AllMembers i (m ∷ ms) = IsMember i m × AllMembers i ms

pub append-IsNonZero : (s t : List ℕ) → IsNonZero s → IsNonZero t → IsNonZero (s ++ t)
append-IsNonZero [] t hs ht = ht
append-IsNonZero (c ∷ s) t (h, hs) ht = (h, append-IsNonZero s t hs ht)

key_text-IsNonZero : (key : List ℕ) → IsNonZero key → IsNonZero (key_text key)
key_text-IsNonZero key h = elim (Bool-cases (get_or key 0 0 == bracket)) [
  | inl e ↦ rw e tt
  | inr e ↦ rw e (omega arith, append-IsNonZero key (quote ∷ colon ∷ []) h (omega arith))
]

string_text-IsNonZero : (s : List ℕ) → IsNonZero s → IsNonZero (string_text s)
unfolding string_text
string_text-IsNonZero s h =
    elim (Bool-cases ((get_or s 0 0 == brace) || (get_or s 0 0 == bracket))) [
      | inl e ↦ rw e h
      | inr e ↦ rw e (omega arith, append-IsNonZero s (quote ∷ []) h (omega arith))
    ]

module _ (api : JsonApi) (plain : (n : ℕ) → IsNonZero (api.decimal n)) where
  value_text-IsNonZero : (v : Value) → IsPrintable v → IsNonZero (value_text api v)
  value_text-IsNonZero (integer n) h = plain n
  value_text-IsNonZero (string none) h = elim h [ ]
  value_text-IsNonZero (string (some s)) h = string_text-IsNonZero s h
  value_text-IsNonZero other h = elim h [ ]

  pub member_text-IsNonZero : (i : ℕ) (m : Member) → IsMember i m → IsNonZero (member_text api m)
  member_text-IsNonZero i (key, value) (same, k, v) =
      append-IsNonZero (key_text key) (value_text api value) (key_text-IsNonZero key k)
        (value_text-IsNonZero value v)

-- A value that can be printed is.
pub pack_into_prints :
    (api : JsonApi) (key : List ℕ) (v : Value) (memory : List ℕ)
    → IsPrintable v
    → pack_into api key v memory
      ≡ some (close_member key (value_text api v) (print_key key (open_member key memory)))
unfolding pack_into
pack_into_prints api key (integer n) memory h = refl
pack_into_prints api key (string none) memory h = elim h [ ]
pack_into_prints api key (string (some s)) memory h = refl
pack_into_prints api key other memory h = elim h [ ]

-- What the allocator promises: the new size, and the bytes that both sizes have.
pub record IsHeap (api : JsonApi) : Type 0 where
  pub sized : (memory : List ℕ) (n : ℕ) → length (api.realloc memory n) ≡ n
  pub kept :
      (memory : List ℕ) (n : ℕ)
      → take (min (length memory) n) (api.realloc memory n) ≡ take (min (length memory) n) memory

take-text :
    (s q : List ℕ) (k : ℕ)
    → length s < k
    → take k (s ++ (0 ∷ q)) ≡ s ++ (0 ∷ take (k - length s - 1) q)
take-text [] q zero h = absurd (omega arith)
take-text [] q (suc k) h = ap (λ n. 0 ∷ take n q) (let e : k ≡ suc k - 0 - 1 = omega arith in e)
take-text (c ∷ s) q zero h = absurd (omega arith)
take-text (c ∷ s) q (suc k) h =
    ap (λ r. c ∷ r) (take-text s q k (omega (arith, h)))
    ∙ ap (λ n. c ∷ (s ++ (0 ∷ take n q)))
        (let e : k - length s - 1 ≡ suc k - suc (length s) - 1 = omega arith in e)

pub realloc-IsText :
    (api : JsonApi) (memory s : List ℕ) (n : ℕ)
    → IsHeap api
    → IsText memory s
    → length s < n
    → IsText (api.realloc memory n) s
realloc-IsText api memory s n heap (q, m) small =
    let r : List ℕ = api.realloc memory n in
    let k : ℕ = min (length memory) n in
    let long : length s < k = omega (arith, small, ap length m, length-append s (0 ∷ q)) in
    (
      take (k - length s - 1) q ++ drop k r,
      sym (take-append-drop k r)
          ∙ ap (λ t. t ++ drop k r) (heap.kept memory n ∙ ap (take k) m ∙ take-text s q k long)
          ∙ append_assoc s (0 ∷ take (k - length s - 1) q) (drop k r),
    )
