-- ===== src/Mlink/Json.antt =====
-- The printing of JSON: __mlink_json_pack and mlink_json_pack_double of
-- esp-mdf/components/mlink/mlink_json.c. The memory behind a pointer is the list of its bytes, a
-- text the list of its characters before the NUL.
pub mod Bytes
pub mod Members
pub mod Places
pub mod Render
pub mod Room
pub mod Unfinished
pub mod Tests
use pio_esp_mdf_example.Prelude.{
  ℕ, suc, ◌+◌, ◌-◌, List, [], ◌∷◌, ◌++◌, Option, none, some, ◌==◌, if◌then◌else◌, take, drop,
  length, get_or, replicate, ◌||◌,
}
use pio_esp_mdf_example.Mcommon.Err.{Err, mdf_fail, mdf_err_invalid_arg}

-- What the allocator and sprintf give: new memory of zeros, or none; memory of another size; the
-- text of "%d" for the pattern of an `int`.
pub record JsonApi : Type 0 where
  pub calloc : ℕ → Option (List ℕ)
  pub realloc : List ℕ → ℕ → List ℕ
  pub decimal : ℕ → List ℕ

-- A value with the type that the macro mlink_json_pack finds for it: the three types of integers are
-- printed alike, a string may be a null pointer, and all else, such as a `double`, has no type.
pub data Value : Type 0 where
  integer : ℕ → Value
  string : Option (List ℕ) → Value
  other : Value

-- Where the text goes: a null argument, a pointer that the function may set, or the caller's array.
pub data Target : Type 0 where
  missing : Target
  pointer : Option (List ℕ) → Target
  array : List ℕ → Target

-- The result, or a null pointer that is followed.
pub data Outcome : Type 0 where
  fault : Outcome
  returned : ℕ → Target → Outcome

-- The characters of the format strings
abbrev pub quote : ℕ
quote = 0x22

abbrev pub colon : ℕ
colon = 0x3a

abbrev pub comma : ℕ
comma = 0x2c

abbrev pub brace : ℕ
brace = 0x7b

abbrev pub bracket : ℕ
bracket = 0x5b

-- strlen
unfoldable pub strlen : List ℕ → ℕ
strlen [] = 0
strlen (c ∷ cs) = if c == 0 then 0 else suc (strlen cs)

-- Bytes written at an offset. What stands past the end of the memory makes the list longer.
unfoldable pub write_at : ℕ → List ℕ → List ℕ → List ℕ
write_at i bytes memory = take i memory ++ (bytes ++ drop (i + length bytes) memory)

-- `sprintf` at an offset
unfoldable pub print_at : ℕ → List ℕ → List ℕ → List ℕ
print_at i text memory = write_at i (text ++ (0 ∷ [])) memory

abbrev pub identifier : List ℕ → ℕ
identifier key = if get_or key 0 0 == bracket then bracket else brace

abbrev pub closing : ℕ → ℕ
closing i = if i == brace then 0x7d else 0x5d

-- The text of the key, with the colon
abbrev pub key_text : List ℕ → List ℕ
key_text key =
    if get_or key 0 0 == bracket then [] else (quote ∷ []) ++ (key ++ (quote ∷ colon ∷ []))

-- The offset behind the first bracket or the new comma, and the memory with it
unfoldable pub open_member : List ℕ → List ℕ → ℕ × List ℕ
open_member key memory =
    if get_or memory 0 0 == identifier key
    then (strlen memory - 1 + 1, write_at (strlen memory - 1) (comma ∷ []) memory)
    else (1, write_at 0 (identifier key ∷ []) memory)

-- The key, which is not printed in an array
unfoldable pub print_key : List ℕ → ℕ × List ℕ → ℕ × List ℕ
print_key key (index, memory) =
    if get_or key 0 0 == bracket
    then (index, memory)
    else (index + length (key_text key), print_at index (key_text key) memory)

-- The value, then the closing bracket and the NUL. The number is the length of the text.
unfoldable pub close_member : List ℕ → List ℕ → ℕ × List ℕ → ℕ × List ℕ
close_member key text (index, memory) = (
  index + length text + 1,
  write_at (index + length text) (closing (identifier key) ∷ 0 ∷ []) (print_at index text memory),
)

-- Text that starts with a bracket is printed as it is, and all other text in quotes.
unfoldable pub string_text : List ℕ → List ℕ
string_text s =
    if (get_or s 0 0 == brace) || (get_or s 0 0 == bracket)
    then s
    else (quote ∷ []) ++ (s ++ (quote ∷ []))

-- From the start symbol on: the result, and the memory
unfoldable pub pack_into : JsonApi → List ℕ → Value → List ℕ → Option (ℕ × List ℕ)
pack_into api key (integer n) memory =
    some (close_member key (api.decimal n) (print_key key (open_member key memory)))
pack_into api key (string none) memory = none
pack_into api key (string (some s)) memory =
    some (close_member key (string_text s) (print_key key (open_member key memory)))
pack_into api key other memory =
    let (index, memory') = print_key key (open_member key memory) in some (mdf_fail, memory')

unfoldable pub value_len : Value → ℕ
value_len (integer n) = 10
value_len (string none) = 0
value_len (string (some s)) = length s
value_len other = 10

-- The memory for a pointer: `slack` is the 16 or 32 bytes for the punctuation.
unfoldable pub make_room : JsonApi → ℕ → Option (List ℕ) → Option (List ℕ)
make_room api size none = api.calloc size
make_room api size (some memory) = some (api.realloc memory (size + strlen memory))

unfoldable pub to_pointer : Option (ℕ × List ℕ) → Outcome
to_pointer none = fault
to_pointer (some (ret, memory)) = returned ret (pointer (some memory))

unfoldable pub to_array : Option (ℕ × List ℕ) → Outcome
to_array none = fault
to_array (some (ret, memory)) = returned ret (array memory)

unfoldable pub into_room : JsonApi → List ℕ → Value → Option (List ℕ) → Outcome
into_room api key value none = fault
into_room api key value (some memory) = to_pointer (pack_into api key value memory)

unfoldable pub pack_pointer : JsonApi → List ℕ → Value → Option (List ℕ) → Outcome
pack_pointer api key value old =
    into_room api key value (make_room api (value_len value + length key + 16) old)

-- __mlink_json_pack
unfoldable pub json_pack : JsonApi → Target → Option (List ℕ) → Value → Outcome
json_pack api target none value = returned mdf_err_invalid_arg target
json_pack api missing (some key) value = returned mdf_err_invalid_arg missing
json_pack api (pointer old) (some key) (string none) = returned mdf_err_invalid_arg (pointer old)
json_pack api (pointer old) (some key) value = pack_pointer api key value old
json_pack api (array memory) (some key) value = to_array (pack_into api key value memory)

-- The memory of mlink_json_pack_double: a first allocation is repeated until it succeeds, and filled
-- with zeros.
unfoldable pub make_room_double : JsonApi → ℕ → Option (List ℕ) → List ℕ
make_room_double api size none = replicate size 0
make_room_double api size (some memory) = api.realloc memory (size + strlen memory)

-- mlink_json_pack_double with its arguments checked; the text of "%lf" for the value is given.
unfoldable pub json_pack_double : JsonApi → Option (List ℕ) → List ℕ → List ℕ → Outcome
json_pack_double api old key text = to_pointer (
    some (
      close_member key text
        (print_key key (open_member key (make_room_double api (length key + 32) old)))))
