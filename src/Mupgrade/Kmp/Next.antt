-- ===== src/Mupgrade/Kmp/Next.antt =====
-- `kmp_next` builds the table of the longest proper borders.
use pio_esp_mdf_example.Prelude.{
  ℕ, zero, suc, ◌+◌, ◌-◌, ◌%◌, ◌<◌, ◌≤◌, ◌≡◌, inl, inr, sym, ap, ◌∙◌, List, arith, length, get_or,
  set, get_or-set_self, get_or-set_ne, length-set, ◌≢◌, Bool-cases, ◌==◌,
}
use pio_esp_mdf_example.Mupgrade.Kmp.{advance, next_loop, kmp_next}
use pio_esp_mdf_example.Mupgrade.Kmp.Fall.{Agrees, IsBorder, IsTable}
use pio_esp_mdf_example.Mupgrade.Kmp.Advance.{Advanced, advance-Advanced}

IsBorder-value :
    (target next next' : List ℕ) (q : ℕ)
    → get_or next' q 0 ≡ get_or next q 0
    → IsBorder target next q
    → IsBorder target next' q
IsBorder-value target next next' q e border = record {
  short = rw e border.short;
  agrees = rw e border.agrees;
  longest = rw e border.longest;
}

-- Writing the entry at the end of a table extends it.
IsTable-set :
    (target next : List ℕ) (i v : ℕ)
    → i < length next
    → IsTable target next i
    → v ≤ i
    → ((s : ℕ) → s + v ≡ suc i → Agrees target target s v)
    → ((s l : ℕ) → s + l ≡ suc i → 0 < s → Agrees target target s l → l ≤ v)
    → IsTable target (set next i v) (suc i)
IsTable-set target next i v room table short agrees longest q h = elim (Bool-cases (q == i)) [
  | inl last ↦
      let at : q ≡ i = ground arith in
      let value : get_or (set next i v) q 0 ≡ v =
        ap (λ t. get_or (set next i v) t 0) at ∙ get_or-set_self next i v 0 room in
      record {
        short = rw value (omega arith);
        agrees = rw value (λ s e. agrees s (omega arith));
        longest = rw value (λ s l e pos part. longest s l (omega arith) pos part);
      }
  | inr before ↦
      let ne : i ≢ q = ground arith in
      IsBorder-value target next (set next i v) q (get_or-set_ne next v 0 ne)
        (table q (ground arith))
]

longest_border :
    (target next : List ℕ) (i j v : ℕ)
    → 0 < i
    → j ≡ get_or next (i - 1) 0
    → IsBorder target next (i - 1)
    → Advanced target target i j v
    → (s l : ℕ) → s + l ≡ suc i
    → 0 < s
    → Agrees target target s l
    → l ≤ v
longest_border target next i j v pos e border step s zero ends later part = omega arith
longest_border target next i j v pos e border step s (suc l) ends later part =
    step.longest s l ends
      (rw e (border.longest s l (omega arith) later (λ k h. part k (omega arith)))) part

IsTable-one : (target next : List ℕ) → get_or next 0 0 ≡ 0 → IsTable target next 1
IsTable-one target next first q h =
    let at : q ≡ 0 = omega arith in
    rw at (record {
      short = omega (arith, first);
      agrees = λ s e k lt. absurd (omega (arith, first));
      longest = λ s l e pos part. omega (arith, first);
    })

next_loop-IsTable :
    (left : ℕ) (target : List ℕ) (i j : ℕ) (next : List ℕ)
    → 0 < i
    → i + left ≤ length next
    → i + left ≤ 256
    → IsTable target next i
    → j ≡ get_or next (i - 1) 0
    → IsTable target (next_loop left target i j next) (i + left)
unfolding next_loop
next_loop-IsTable zero target i j next pos room narrow table e = λ q h. table q (omega arith)
next_loop-IsTable (suc left) target i j next pos room narrow table e =
    let border = table (i - 1) (omega arith) in
    let step =
      advance-Advanced target target next i i j table (omega (arith, border.short))
        (omega (arith, border.short)) (λ s h. rw e (border.agrees s (omega arith))) in
    let v = advance target next (get_or target i 0) j in
    let entry : v % 256 ≡ v = omega (arith, step.longer, border.short) in
    let table' =
      IsTable-set target next i v (omega arith) table (omega (arith, step.longer, border.short))
        step.agrees (longest_border target next i j v pos e border step) in
    let back : (i + 1) - 1 ≡ i = omega arith in
    let rest =
      next_loop-IsTable left target (i + 1) v (set next i v) (omega arith)
        (omega (arith, length-set next i v)) (omega arith) (λ q h. table' q (omega arith))
        (sym
          (ap (λ t. get_or (set next i v) t 0) back ∙ get_or-set_self next i v 0 (omega arith))) in
    rw entry (λ q h. rest q (omega arith))

-- If the buffer holds an entry for each byte of the target, of which there are from 1 to 256, then
-- kmp_next makes it the table of the longest proper borders: entry q is the length, at most q, of the longest start of the target that
-- is shorter than its first q + 1 bytes and also ends them.
pub kmp_next-IsTable :
    (target : List ℕ) (size : ℕ) (next : List ℕ)
    → 0 < size
    → size ≤ length next
    → size ≤ 256
    → IsTable target (kmp_next target size next) size
unfolding kmp_next
kmp_next-IsTable target size next pos room narrow =
    let first : get_or (set next 0 0) 0 0 ≡ 0 = get_or-set_self next 0 0 0 (omega arith) in
    let rest =
      next_loop-IsTable (size - 1) target 1 0 (set next 0 0) (omega arith)
        (omega (arith, length-set next 0 0)) (omega arith) (IsTable-one target (set next 0 0) first)
        (sym first) in
    λ q h. rest q (omega arith)
