-- ===== src/Mupgrade/Kmp/Advance.antt =====
-- One turn of an outer loop keeps the longest match that ends at the current byte.
use pio_esp_mdf_example.Prelude.{
  ℕ, suc, ◌+◌, ◌≤◌, ◌≡◌, inl, inr, sym, ap, ◌∙◌, List, arith, get_or, Bool-cases, ◌==◌, false,
  if◌then◌else◌,
}
use pio_esp_mdf_example.Mupgrade.Kmp.{fall_back, advance}
use pio_esp_mdf_example.Mupgrade.Kmp.Fall.{Agrees, IsTable, Fallen, fall_back-Fallen}

module _ (src target : List ℕ) where
  Agrees-suc :
      (s l : ℕ)
      → Agrees src target s l
      → get_or src (s + l) 0 ≡ get_or target l 0
      → Agrees src target s (suc l)
  Agrees-suc s l part last k h = elim (Bool-cases (k == l)) [
    | inl at_end ↦
        let e : k ≡ l = ground arith in
        ap (λ t. get_or src (s + t) 0) e ∙ last ∙ ap (λ t. get_or target t 0) (sym e)
    | inr before ↦ part k (ground arith)
  ]

  pub record Advanced (i j j' : ℕ) : Type 0 where
    pub longer : j' ≤ suc j
    pub agrees : (s : ℕ) → s + j' ≡ suc i → Agrees src target s j'
    pub longest : (s l : ℕ) → s + suc l ≡ suc i → l ≤ j → Agrees src target s (suc l) → suc l ≤ j'

  differs :
      {c : ℕ} (l j' : ℕ) → l ≡ j' → (get_or target j' 0 == c) ≡ false → get_or target l 0 ≡ c → ⊥
  differs l j' e miss fits = ground arith

  Fallen-Advanced :
      (i j j' : ℕ)
      → Fallen src target (get_or src i 0) i j j'
      → Advanced i j (if get_or target j' 0 == get_or src i 0 then j' + 1 else j')
  Fallen-Advanced i j j' f = elim (Bool-cases (get_or target j' 0 == get_or src i 0)) [
    | inl hit ↦
        let same : get_or target j' 0 ≡ get_or src i 0 = ground arith in
        rw hit (record {
          longer = omega (arith, f.shorter);
          agrees = λ s e.
              let ends : s + j' ≡ i = omega arith in
              let more : j' + 1 ≡ suc j' = omega arith in
              rw more
                (Agrees-suc s j' (f.agrees s ends) (ap (λ t. get_or src t 0) ends ∙ sym same));
          longest = λ s l e le part.
              let ends : s + l ≡ i = omega arith in
              omega (
                arith,
                f.longest s l le ends (λ k h. part k (omega arith))
                    (sym (part l (omega arith)) ∙ ap (λ t. get_or src t 0) ends),
              );
        })
    | inr miss ↦
        let none_left : j' ≡ 0 = ground (arith, f.stops) in
        rw miss (record {
          longer = omega arith;
          agrees = λ s e k h. absurd (omega arith);
          longest = λ s l e le part.
              let ends : s + l ≡ i = omega arith in
              let fits : get_or target l 0 ≡ get_or src i 0 =
                sym (part l (omega arith)) ∙ ap (λ t. get_or src t 0) ends in
              let short = f.longest s l le ends (λ k h. part k (omega arith)) fits in
              absurd (differs l j' (omega arith) miss fits);
        })
  ]

  -- From the longest match that ends before `i`, a turn finds the longest that ends at `i`.
  pub advance-Advanced :
      (next : List ℕ) (m i j : ℕ)
      → IsTable target next m
      → j ≤ m
      → j ≤ i
      → ((s : ℕ) → s + j ≡ i → Agrees src target s j)
      → Advanced i j (advance target next (get_or src i 0) j)
  advance-Advanced next m i j table le_m le_i whole =
      Fallen-Advanced i j (fall_back target next (get_or src i 0) j j) (
        fall_back-Fallen src target next (get_or src i 0) m i j j table (omega arith) le_m le_i
          whole)
