-- ===== src/Mlink/Json/Places.antt =====
-- Where the printer stands after each of its steps, and the text behind it.
use pio_esp_mdf_example.Prelude.{
  ℕ, ◌+◌, ◌-◌, ◌≡◌, refl, sym, ap, ◌∙◌, true, false, List, [], ◌∷◌, ◌++◌, length, length-append,
  drop, get_or, arith, ◌==◌, inl, inr, Bool-cases,
}
use mathlib.Core.Path.{subst}
use mathlib.Core.List.{append_assoc, append-nil}
use pio_esp_mdf_example.Mlink.Json.{
  quote, colon, comma, bracket, strlen, write_at, print_at, identifier, closing, key_text,
  open_member, print_key, close_member,
}
use pio_esp_mdf_example.Mlink.Json.Bytes.{
  IsNonZero, IsText, IsAt, write_at_end, strlen_text, print_at-IsAt,
}

pub print_key-IsAt :
    (key : List ℕ) (index : ℕ) (memory p : List ℕ)
    → IsAt (index, memory) p
    → IsAt (print_key key (index, memory)) (p ++ key_text key)
unfolding print_key
print_key-IsAt key index memory p h = elim (Bool-cases (get_or key 0 0 == bracket)) [
  | inl e ↦ rw e (subst (λ t. IsAt (index, memory) t) (sym (append-nil p)) h)
  | inr e ↦ rw e (print_at-IsAt index memory p ((quote ∷ []) ++ (key ++ (quote ∷ colon ∷ []))) h)
]

-- The text that `close_member` makes, and that it returns its length
abbrev pub Printed : ℕ × List ℕ → List ℕ → Type 0
Printed (ret, memory) s = (ret ≡ length s) × IsText memory s

pub close_member-Printed :
    (key text : List ℕ) (st : ℕ × List ℕ) (p : List ℕ)
    → IsAt st p
    → Printed (close_member key text st) (p ++ (text ++ (closing (identifier key) ∷ [])))
unfolding close_member
close_member-Printed key text (index, memory) p h =
    let end : List ℕ = closing (identifier key) ∷ 0 ∷ [] in
    let (i, (q, m)) = print_at-IsAt index memory p text h in
    (
      omega (
        arith,
        i,
        length-append p text,
        length-append p (text ++ (closing (identifier key) ∷ [])),
        length-append text (closing (identifier key) ∷ []),
      ),
      (
        drop 2 q,
        ap (λ k. write_at k end (print_at index text memory)) i
            ∙ ap (λ r. write_at (length (p ++ text)) end r) m
            ∙ write_at_end (p ++ text) end q
            ∙ simp append_assoc refl,
      ),
    )

==_refl : (n : ℕ) → (n == n) ≡ true
==_refl n = ground arith

pub open_fresh :
    (key memory : List ℕ)
    → (get_or memory 0 0 == identifier key) ≡ false
    → IsAt (open_member key memory) (identifier key ∷ [])
unfolding open_member
open_fresh key memory e = rw e (refl, (drop 1 memory, write_at_end [] (identifier key ∷ []) memory))

-- The closing bracket of the text is overwritten by the comma.
pub open_again :
    (key memory : List ℕ) (i c : ℕ) (cs : List ℕ)
    → identifier key ≡ i
    → IsNonZero ((i ∷ cs) ++ (c ∷ []))
    → IsText memory ((i ∷ cs) ++ (c ∷ []))
    → IsAt (open_member key memory) ((i ∷ cs) ++ (comma ∷ []))
unfolding open_member
open_again key memory i c cs same nonzero (q, m) =
    let base : List ℕ = i ∷ cs in
    let text : List ℕ = base ++ (c ∷ []) in
    let split : memory ≡ base ++ (c ∷ 0 ∷ q) = m ∙ append_assoc base (c ∷ []) (0 ∷ q) in
    let first : get_or memory 0 0 ≡ i = ap (λ r. get_or r 0 0) m in
    let long : strlen memory ≡ length cs + 2 =
      ap strlen m ∙ strlen_text text q nonzero ∙ omega (arith, length-append base (c ∷ [])) in
    let found : (get_or memory 0 0 == identifier key) ≡ true =
      ap (λ k. k == identifier key) first ∙ ap (λ k. i == k) same ∙ ==_refl i in
    let at : strlen memory - 1 ≡ length base = omega (arith, long) in
    rw found (
      omega (arith, long, length-append base (comma ∷ [])),
      (
        0 ∷ q,
        ap (λ k. write_at k (comma ∷ []) memory) at
            ∙ ap (λ r. write_at (length base) (comma ∷ []) r) split
            ∙ write_at_end base (comma ∷ []) (c ∷ 0 ∷ q)
            ∙ simp append_assoc refl,
      ),
    )
