-- ===== src/Mupgrade/Kmp/Fall.antt =====
-- Falling back finds the longest shorter match that can go on.
use pio_esp_mdf_example.Prelude.{
  ℕ, zero, suc, ◌+◌, ◌-◌, ◌<◌, ◌≤◌, ◌≡◌, ◌≢◌, ◌⊎◌, inl, inr, sym, ap, ◌∙◌, List, arith, get_or,
  Bool-cases, ◌==◌, ==_iff,
}
use pio_esp_mdf_example.Mupgrade.Kmp.{fall_back}

-- The `l` bytes of `src` from `s` on are the first `l` bytes of `target`.
abbrev pub Agrees : List ℕ → List ℕ → ℕ → ℕ → Type 0
Agrees src target s l = (k : ℕ) → k < l → get_or src (s + k) 0 ≡ get_or target k 0

-- Entry `q` of the table is the length of the longest proper border of the first `q + 1` bytes.
pub record IsBorder (target next : List ℕ) (q : ℕ) : Type 0 where
  pub short : get_or next q 0 ≤ q
  pub agrees : (s : ℕ) → s + get_or next q 0 ≡ q + 1 → Agrees target target s (get_or next q 0)
  pub longest : (s l : ℕ) → s + l ≡ q + 1 → 0 < s → Agrees target target s l → l ≤ get_or next q 0

abbrev pub IsTable : List ℕ → List ℕ → ℕ → Type 0
IsTable target next m = (q : ℕ) → q < m → IsBorder target next q

module _ (src target : List ℕ) where
  -- A border of a match gives a shorter match.
  Agrees-border :
      {i j b : ℕ} (s s' d : ℕ)
      → s + j ≡ i
      → s' + b ≡ i
      → d + b ≡ j
      → Agrees src target s j
      → Agrees target target d b
      → Agrees src target s' b
  Agrees-border s s' d e e' e'' whole border k h =
      ap (λ t. get_or src t 0) (let p : s' + k ≡ s + (d + k) = omega arith in p)
      ∙ whole (d + k) (omega arith)
      ∙ border k h

  -- A shorter match at the end of a match gives a border.
  border-Agrees :
      {i j l : ℕ} (s s' d : ℕ)
      → s + j ≡ i
      → s' + l ≡ i
      → d + l ≡ j
      → Agrees src target s j
      → Agrees src target s' l
      → Agrees target target d l
  border-Agrees s s' d e e' e'' whole part k h =
      sym (whole (d + k) (omega arith))
      ∙ ap (λ t. get_or src t 0) (let p : s + (d + k) ≡ s' + k = omega arith in p)
      ∙ part k h

  -- The result of falling back from a match of length `j` that ends before `i`, at the byte `c`.
  pub record Fallen (c i j j' : ℕ) : Type 0 where
    pub shorter : j' ≤ j
    pub agrees : (s : ℕ) → s + j' ≡ i → Agrees src target s j'
    pub stops : (j' ≡ 0) ⊎ (get_or target j' 0 ≡ c)
    pub longest :
        (s l : ℕ) → l ≤ j → s + l ≡ i → Agrees src target s l → get_or target l 0 ≡ c → l ≤ j'

  pub fall_back-Fallen :
      (next : List ℕ) (c m i fuel j : ℕ)
      → IsTable target next m
      → j ≤ fuel
      → j ≤ m
      → j ≤ i
      → ((s : ℕ) → s + j ≡ i → Agrees src target s j)
      → Fallen c i j (fall_back target next c fuel j)
  unfolding fall_back
  fall_back-Fallen next c m i zero j table enough le_m le_i whole = record {
    shorter = omega arith;
    agrees = whole;
    stops = inl (omega arith);
    longest = λ s l h e part fits. h;
  }
  fall_back-Fallen next c m i (suc fuel) j table enough le_m le_i whole =
      elim (Bool-cases (j == 0)) [
        | inl empty ↦ rw empty (record {
          shorter = omega arith;
          agrees = whole;
          stops = inl ((==_iff j 0).0 empty);
          longest = λ s l h e part fits. h;
        })
        | inr some_left ↦ elim (Bool-cases (get_or target j 0 == c)) [
          | inl hit ↦
              rw (some_left, hit)
                (record {
                  shorter = omega arith;
                  agrees = whole;
                  stops = inr ((==_iff (get_or target j 0) c).0 hit);
                  longest = λ s l h e part fits. h;
                })
          | inr miss ↦
              let pos : 0 < j = ground arith in
              let other : get_or target j 0 ≢ c = ground arith in
              let b = get_or next (j - 1) 0 in
              let border = table (j - 1) (omega arith) in
              let start : (i - j) + j ≡ i = omega arith in
              let shorter = λ (l : ℕ) (h : l ≤ j) (fits : get_or target l 0 ≡ c).
                let less : l < j = ground arith in less in
              let rest =
                fall_back-Fallen next c m i fuel b table (omega (arith, border.short))
                  (omega (arith, border.short)) (omega (arith, border.short))
                  (λ s e.
                    Agrees-border (i - j) s (j - b) start e (omega (arith, border.short))
                      (whole (i - j) start)
                      (border.agrees (j - b) (omega (arith, border.short)))) in
              rw (some_left, miss)
                (record {
                  shorter = omega (arith, rest.shorter, border.short);
                  agrees = rest.agrees;
                  stops = rest.stops;
                  longest = λ s l h e part fits.
                      rest.longest s l
                        (border.longest (j - l) l (omega (arith, shorter l h fits))
                          (omega (arith, shorter l h fits))
                          (border-Agrees (i - j) s (j - l) start e (omega arith)
                            (whole (i - j) start) part))
                        e part fits;
                })
        ]
      ]
