-- ===== src/Mupgrade/Kmp/Find.antt =====
-- `kmp_find` looks for the target in a part of the source.
use pio_esp_mdf_example.Prelude.{
  ℕ, zero, suc, ◌+◌, ◌-◌, ◌*◌, ◌<◌, ◌≤◌, ◌≡◌, ◌≢◌, ◌↔◌, inl, inr, List, arith, length, get_or,
  Bool-cases, ◌==◌, if◌then◌else◌,
}
use pio_esp_mdf_example.Mcommon.Err.{Err, mdf_ok}
use pio_esp_mdf_example.Mupgrade.Kmp.{fall_back, advance, find_loop, kmp_find, kmp_next}
use pio_esp_mdf_example.Mupgrade.Kmp.Fall.{Agrees, IsTable, fall_back-Fallen}
use pio_esp_mdf_example.Mupgrade.Kmp.Advance.{Advanced, advance-Advanced}
use pio_esp_mdf_example.Mupgrade.Kmp.Next.{kmp_next-IsTable}

module _ (src target : List ℕ) (t : ℕ) (next : List ℕ) (table : IsTable target next t)
    (some_target : 0 < t) where
  -- What the loop knows before byte `i`.
  record IsLongest (i j : ℕ) : Type 0 where
    short : j < t
    within : j ≤ i
    agrees : (s : ℕ) → s + j ≡ i → Agrees src target s j
    longest : (s l : ℕ) → s + l ≡ i → l < t → Agrees src target s l → l ≤ j

  step :
      {i j : ℕ} → IsLongest i j → Advanced src target i j (advance target next (get_or src i 0) j)
  step {i} {j} v =
      advance-Advanced src target next t i j table (omega (arith, v.short)) v.within v.agrees

  longest-suc :
      {i j : ℕ} (v : IsLongest i j) (s l : ℕ)
      → s + l ≡ suc i
      → l ≤ t
      → Agrees src target s l
      → l ≤ advance target next (get_or src i 0) j
  longest-suc v s zero ends le part = omega arith
  longest-suc v s (suc l) ends le part =
      (step v).longest s l ends
        (v.longest s l (omega arith) (omega arith) (λ k h. part k (omega arith))) part

  step-IsLongest :
      {i j : ℕ} (v : IsLongest i j)
      → advance target next (get_or src i 0) j ≢ t
      → IsLongest (i + 1) (advance target next (get_or src i 0) j)
  step-IsLongest {i} {j} v other = record {
    short = omega (arith, (step v).longer, v.short);
    within = omega (arith, (step v).longer, v.within);
    agrees = λ s e. (step v).agrees s (omega arith);
    longest = λ s l e lt part. longest-suc v s l (omega arith) (omega arith) part;
  }

  find_turn :
      (c index : ℕ) (rest : ℕ → Err)
      → index < t
      → (if get_or target index 0 == c
          then (if index + 1 == t then mdf_ok else rest (index + 1))
          else rest index)
        ≡ (let j' = if get_or target index 0 == c then index + 1 else index in
            if j' == t then mdf_ok else rest j')
  find_turn c index rest less = elim (Bool-cases (get_or target index 0 == c)) [
    | inl hit ↦ rw hit
    | inr miss ↦ rw miss (ground arith)
  ]

  start-IsLongest : IsLongest 0 0
  start-IsLongest = record {
    short = some_target;
    within = omega arith;
    agrees = λ s e k h. elim h [ ];
    longest = λ s l e lt part. omega arith;
  }

  -- One turn, by the new length of the match.
  find_loop-suc :
      (left i j : ℕ)
      → IsLongest i j
      → find_loop (suc left) src target t next i j ≡ (
          if advance target next (get_or src i 0) j == t
          then mdf_ok
          else find_loop left src target t next (i + 1) (advance target next (get_or src i 0) j))
  unfolding find_loop
  find_loop-suc left i j v =
      let c = get_or src i 0 in
      let fallen =
        fall_back-Fallen src target next c t i j j table (omega arith) (omega (arith, v.short))
          v.within v.agrees in
      let less : fall_back target next c j j < t = omega (arith, fallen.shorter, v.short) in
      find_turn c (fall_back target next c j j) (find_loop left src target t next (i + 1)) less

  find_loop_sound :
      (left i j : ℕ)
      → IsLongest i j
      → find_loop left src target t next i j ≡ mdf_ok
      → (s : ℕ) × (s + t ≤ i + left) × Agrees src target s t
  find_loop_sound zero i j v ok = absurd (unfold find_loop in omega arith)
  find_loop_sound (suc left) i j v ok =
      let j' = advance target next (get_or src i 0) j in
      elim (Bool-cases (j' == t)) [
        | inl done ↦
            let at : j' ≡ t = ground arith in
            let fits : (suc i - t) + t ≡ suc i = omega (arith, (step v).longer, v.within) in
            (
              suc i - t,
              omega (arith, fits),
              λ k h. (step v).agrees (suc i - t) (omega (arith, fits, at)) k (omega (arith, at)),
            )
        | inr more ↦
            let (s, h, part) =
              find_loop_sound left (i + 1) j' (step-IsLongest v (ground arith))
                (rw (find_loop-suc left i j v, more) at ok) in
            (s, omega arith, part)
      ]

  not_here :
      {i j : ℕ} (v : IsLongest i j) (s : ℕ)
      → Agrees src target s t
      → advance target next (get_or src i 0) j ≢ t
      → i < s + t
      → s + t ≢ suc i
  not_here v s part ne before ends =
      ne (omega (arith, longest-suc v s t ends (omega arith) part, (step v).longer, v.short))

  find_loop_complete :
      (left i j s : ℕ)
      → IsLongest i j
      → i < s + t
      → s + t ≤ i + left
      → Agrees src target s t
      → find_loop left src target t next i j ≡ mdf_ok
  find_loop_complete zero i j s v before inside part = absurd (omega arith)
  find_loop_complete (suc left) i j s v before inside part =
      let j' = advance target next (get_or src i 0) j in
      elim (Bool-cases (j' == t)) [
        | inl done ↦ rw (find_loop-suc left i j v, done)
        | inr more ↦
            let ne : j' ≢ t = ground arith in
            rw (find_loop-suc left i j v, more)
              (find_loop_complete left (i + 1) j' s (step-IsLongest v ne)
                (omega (arith, not_here v s part ne before)) (omega arith) part)
      ]

-- On a target of 1 to 256 bytes that fits the table's buffer and is no longer than the source,
-- kmp_next and kmp_find together return MDF_OK exactly if the target occurs in the source and ends
-- before the byte behind its last `target_size - 1` bytes: the loop stops after
-- `src_size - target_size + 1` bytes, although its variable runs over the ends of matches.
pub kmp_find_iff :
    (src : List ℕ) (src_size : ℕ) (target : List ℕ) (target_size : ℕ) (buffer : List ℕ)
    → 0 < target_size
    → target_size ≤ length buffer
    → target_size ≤ 256
    → target_size ≤ src_size
    → (kmp_find src src_size target target_size (kmp_next target target_size buffer) ≡ mdf_ok)
      ↔ ((s : ℕ) × (s + 2 * target_size ≤ src_size + 1) × Agrees src target s target_size)
unfolding kmp_find
kmp_find_iff src src_size target target_size buffer pos room narrow fits =
    let next = kmp_next target target_size buffer in
    let table = kmp_next-IsTable target target_size buffer pos room narrow in
    let start = start-IsLongest src target target_size next table pos in
    let left = src_size + 1 - target_size in
    (
      λ ok.
          let (s, h, part) =
            find_loop_sound src target target_size next table pos left 0 0 start ok in
          (s, omega arith, part),
      λ found.
          let (s, h, part) = found in
          find_loop_complete src target target_size next table pos left 0 0 s start (omega arith)
            (omega arith) part,
    )
