-- ===== src/Mlink/Json/Tests.antt =====
-- The theorems on the JSON printer at concrete inputs.
use pio_esp_mdf_example.Prelude.{
  ℕ, ◌≡◌, refl, List, [], ◌∷◌, ◌++◌, none, some, zero, suc, ap, ◌∙◌, take, length-take,
  length-append, length-replicate, replicate, length, arith, min, ◌≤◌,
}
use pio_esp_mdf_example.Mlink.Json.{
  JsonApi, integer, string, returned, pointer, brace, json_pack, value_len, strlen, closing,
}
use pio_esp_mdf_example.Mlink.Json.Members.{Member, IsHeap}
use pio_esp_mdf_example.Mlink.Json.Render.{pack_all, render, Built, pack_all_renders}
use pio_esp_mdf_example.Mlink.Json.Room.{StaysInside, json_pack-StaysInside}

-- New bytes are zeros, and every number prints as "7".
abbrev pub api : JsonApi
api = record {
  calloc = λ n. some (replicate n 0);
  realloc = λ memory n. take n (memory ++ replicate n 0);
  decimal = λ n. 0x37 ∷ [];
}

take-take : (k n : ℕ) (l : List ℕ) → k ≤ n → take k (take n l) ≡ take k l
take-take zero n l h = refl
take-take (suc k) zero l h = absurd (omega arith)
take-take (suc k) (suc n) [] h = refl
take-take (suc k) (suc n) (x ∷ l) h = ap (λ r. x ∷ r) (take-take k n l (omega (arith, h)))

take-append : (k : ℕ) (l z : List ℕ) → k ≤ length l → take k (l ++ z) ≡ take k l
take-append zero l z h = refl
take-append (suc k) [] z h = absurd (omega arith)
take-append (suc k) (x ∷ l) z h = ap (λ r. x ∷ r) (take-append k l z (omega (arith, h)))

api-sized : (memory : List ℕ) (n : ℕ) → length (take n (memory ++ replicate n 0)) ≡ n
api-sized memory n = omega (
  arith,
  length-take n (memory ++ replicate n 0),
  length-append memory (replicate n 0),
  length-replicate {A = ℕ} n 0,
)

api-kept :
    (memory : List ℕ) (n : ℕ)
    → take (min (length memory) n) (take n (memory ++ replicate n 0))
      ≡ take (min (length memory) n) memory
api-kept memory n =
    take-take (min (length memory) n) n (memory ++ replicate n 0) (omega arith)
    ∙ take-append (min (length memory) n) memory (replicate n 0) (omega arith)

pub api-IsHeap : IsHeap api
api-IsHeap = record { sized = api-sized; kept = api-kept }

-- "a"
abbrev key : List ℕ
key = 0x61 ∷ []

abbrev members : List Member
members = (key, integer 7) ∷ (key, string (some (0x62 ∷ []))) ∷ []

pack_all_renders_example :
    Built
      (pack_all api (returned 0 (pointer none)) ((key, integer 7) ∷ members))
      (render api brace (key, integer 7) members)
pack_all_renders_example =
    pack_all_renders api api-IsHeap (λ n. omega arith) (λ n. refl) brace 0 (key, integer 7) members
      (omega arith)

-- {"a":"b"
abbrev body : List ℕ
body = 0x22 ∷ 0x61 ∷ 0x22 ∷ 0x3a ∷ 0x22 ∷ 0x62 ∷ 0x22 ∷ []

-- The text with its brace and its NUL, and one byte of room behind it
abbrev printed : List ℕ
printed = (brace ∷ body) ++ (closing brace ∷ 0 ∷ 0 ∷ [])

json_pack-StaysInside_example :
    StaysInside (json_pack api (pointer (some printed)) (some key) (integer 7)) 36
unfolding value_len strlen
json_pack-StaysInside_example =
    json_pack-StaysInside api api-IsHeap (λ n. omega arith) (λ n. refl) (some printed) key
      (integer 7) ((brace ∷ body) ++ (closing brace ∷ []), omega arith, (0 ∷ [], refl)) tt
