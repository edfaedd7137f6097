-- ===== src/Mwifi/Write/Unpack.antt =====
-- What mwifi_write packs, __mwifi_root_read unpacks.
use mathlib.Core.Path.{subst}
use pio_esp_mdf_example.Prelude.{
  ℕ, zero, suc, ◌+◌, ◌*◌, ◌/◌, ◌<◌, ◌≤◌, ◌≡◌, ◌≢◌, refl, sym, ap, ◌∙◌, Bool, true, false, not, ◌&&◌,
  List, some, length, ltb, leb, ◌==◌, if◌then◌else◌, arith, Bool-cases, inl, inr,
}
use pio_esp_mdf_example.Mcommon.Err.{Err, mdf_ok, mdf_err_no_mem}
use pio_esp_mdf_example.Mwifi.Packet.{DataType, Head}
use pio_esp_mdf_example.Mwifi.RootRead.{
  Buffer, external, internal, Inflated, inflated, buf_error, inflate, hand_over,
}
use pio_esp_mdf_example.Mwifi.RootRead.Whole.{Fits, hand_over_plain}
use pio_esp_mdf_example.Mwifi.Write.{
  Deflated, deflated, deflate_error, Packed, packed, not_packed, pack,
}

-- What the code relies on of miniz: an error is not MZ_OK, a compressed message is not empty, and comes out of uncompress
-- again exactly if the buffer holds it.
pub record IsMiniz (compress : List ℕ → Deflated) (uncompress : ℕ → List ℕ → Inflated)
    : Type 0 where
  pub is_error : (bytes : List ℕ) (e : Err) → compress bytes ≡ deflate_error e → e ≢ mdf_ok
  pub some_bytes : (bytes c : List ℕ) → compress bytes ≡ deflated c → 0 < length c
  pub back :
      (bytes c : List ℕ)
      → compress bytes ≡ deflated c
      → (n : ℕ) → uncompress n c ≡ (if leb (length bytes) n then inflated bytes else buf_error)

abbrev is_kept : List ℕ → Deflated → Bool
is_kept bytes (deflated c) = not (ltb (length bytes) (length c))
is_kept bytes (deflate_error e) = false

-- Whether the compression leaves no more bytes than there were.
abbrev pub shrinks : (List ℕ → Deflated) → List ℕ → Bool
shrinks compress bytes = is_kept bytes (compress bytes)

module _ (compress : List ℕ → Deflated) (uncompress : ℕ → List ℕ → Inflated)
    (miniz : IsMiniz compress uncompress) where
  -- The loop that tries larger buffers ends: the buffer grows until the message fits.
  grow : (a b r : ℕ) → 0 < a → a * r < b → r < b
  grow a b r pos small = grind arith

  inflate-compress :
      (fuel : ℕ) (t : DataType) (rate : ℕ) (bytes c : List ℕ)
      → compress bytes ≡ deflated c
      → length bytes ≤ rate + fuel
      → inflate uncompress (suc fuel) t rate c
        ≡ some (record { ret = mdf_ok; data_type = some t; bytes = bytes })
  unfolding inflate
  inflate-compress zero t rate bytes c packs enough =
      let rate' = if rate == 0 then 5 else rate in
      rw (inflate, miniz.back bytes c packs (length c * rate'))
        (ground (arith, grow (length c) (length bytes) rate' (miniz.some_bytes bytes c packs)))
  inflate-compress (suc fuel) t rate bytes c packs enough =
      let rate' = if rate == 0 then 5 else rate in
      rw (inflate, miniz.back bytes c packs (length c * rate'))
        (ground (arith, inflate-compress fuel t (rate' + 2) bytes c packs (ground arith)))

  abbrev pub Unpacks : ℕ → Buffer → Head → List ℕ → Head → List ℕ → Type 0
  Unpacks fuel buffer head bytes head' bytes' =
      (hand_over uncompress (suc fuel) buffer head'.data_type head'.compress_rate bytes'
        ≡ some (record { ret = mdf_ok; data_type = some head'.data_type; bytes = bytes }))
      × (0 < length bytes')
      × (length bytes' ≤ length bytes)
      × (head'.data_type ≡ record (head.data_type) {
        compression = head.data_type.compression && shrinks compress bytes;
      })

  hand_over-deflated :
      (fuel : ℕ) (buffer : Buffer) (t : DataType) (rate : ℕ) (bytes c : List ℕ)
      → compress bytes ≡ deflated c
      → t.compression ≡ true
      → Fits (length bytes) buffer
      → length bytes ≤ fuel
      → hand_over uncompress (suc fuel) buffer t rate c
        ≡ some (record { ret = mdf_ok; data_type = some t; bytes = bytes })
  unfolding hand_over
  hand_over-deflated fuel internal t rate bytes c packs compressed fits enough =
      simp (hand_over, compressed)
        (inflate-compress fuel t rate bytes c packs (omega (arith, enough)))
  hand_over-deflated fuel (external size) t rate bytes c packs compressed fits enough =
      simp (hand_over, compressed, miniz.back bytes c packs size) (ground (arith, fits))

  module _ (fuel : ℕ) (buffer : Buffer) (memory : Bool) (head : Head) (bytes : List ℕ)
      (pos : 0 < length bytes) (fits : Fits (length bytes) buffer)
      (enough : length bytes ≤ fuel) where
    abbrev pub Unpacked : Packed → Type 0
    Unpacked (packed head' bytes') = Unpacks fuel buffer head bytes head' bytes'
    Unpacked (not_packed e) = e ≢ mdf_ok

    abbrev rated : List ℕ → Head
    rated c = record head {
      compress_rate =
          if leb 15 (length bytes / length c + 1) then 15 else length bytes / length c + 1;
    }

    pack_eq_plain :
        head.data_type.compression ≡ false → pack compress memory head bytes ≡ packed head bytes
    unfolding pack
    pack_eq_plain plain = ground arith

    pack_eq_none :
        head.data_type.compression ≡ true
        → memory ≡ false
        → pack compress memory head bytes ≡ not_packed mdf_err_no_mem
    unfolding pack
    pack_eq_none compressed full = ground arith

    pack_eq_error :
        (e : Err)
        → compress bytes ≡ deflate_error e
        → head.data_type.compression ≡ true
        → memory ≡ true
        → pack compress memory head bytes ≡ not_packed e
    unfolding pack
    pack_eq_error e known compressed room = ground arith

    pack_eq_longer :
        (c : List ℕ)
        → compress bytes ≡ deflated c
        → head.data_type.compression ≡ true
        → memory ≡ true
        → ltb (length bytes) (length c) ≡ true
        → pack compress memory head bytes
          ≡ packed
              (record head { data_type = record (head.data_type) { compression = false } })
              bytes
    unfolding pack
    pack_eq_longer c known compressed room longer = ground arith

    pack_eq_shorter :
        (c : List ℕ)
        → compress bytes ≡ deflated c
        → head.data_type.compression ≡ true
        → memory ≡ true
        → ltb (length bytes) (length c) ≡ false
        → pack compress memory head bytes ≡ packed (rated c) c
    unfolding pack
    pack_eq_shorter c known compressed room shorter = ground arith

    pack_deflated :
        (d : Deflated)
        → compress bytes ≡ d
        → head.data_type.compression ≡ true
        → Unpacked (pack compress memory head bytes)
    pack_deflated (deflate_error e) known compressed = elim (Bool-cases memory) [
      | inl room ↦
          subst Unpacked (sym (pack_eq_error e known compressed room))
            (miniz.is_error bytes e known)
      | inr full ↦
          subst Unpacked (sym (pack_eq_none compressed full)) (λ e. absurd (omega (arith, e)))
    ]
    pack_deflated (deflated c) known compressed =
        let same = λ (b : Bool) (e : shrinks compress bytes ≡ b).
          ap (λ (x : Bool). let t : DataType = record (head.data_type) { compression = x } in t)
            (sym (
              ap (λ (x : Bool). head.data_type.compression && x) e
              ∙ ap (λ (x : Bool). x && b) compressed)) in
        elim (Bool-cases memory) [
          | inr full ↦
              subst Unpacked (sym (pack_eq_none compressed full)) (λ e. absurd (omega (arith, e)))
          | inl room ↦ elim (Bool-cases (ltb (length bytes) (length c))) [
            | inl longer ↦ subst Unpacked (sym (pack_eq_longer c known compressed room longer)) (
              hand_over_plain uncompress (suc fuel) buffer _ _ bytes refl fits,
              pos,
              omega arith,
              same false (ap (is_kept bytes) known ∙ ap not longer),
            )
            | inr shorter ↦ subst Unpacked (sym (pack_eq_shorter c known compressed room shorter)) (
              hand_over-deflated fuel buffer head.data_type (rated c).compress_rate bytes c known
                  compressed fits enough,
              miniz.some_bytes bytes c known,
              ground (arith, shorter),
              ap (λ (x : Bool). let t : DataType = record (head.data_type) { compression = x } in t)
                    compressed
                  ∙ same true (ap (is_kept bytes) known ∙ ap not shorter),
            )
          ]
        ]

    pack_plain : head.data_type.compression ≡ false → Unpacked (pack compress memory head bytes)
    pack_plain plain = subst Unpacked (sym (pack_eq_plain plain)) (
      hand_over_plain uncompress (suc fuel) buffer _ _ bytes plain fits,
      pos,
      omega arith,
      ap (λ (x : Bool). let t : DataType = record (head.data_type) { compression = x } in t)
          (plain ∙ sym (ap (λ (x : Bool). x && shrinks compress bytes) plain)),
    )

    pub pack-Unpacked : Unpacked (pack compress memory head bytes)
    pack-Unpacked = elim (Bool-cases head.data_type.compression) [
      | inl compressed ↦ pack_deflated (compress bytes) refl compressed
      | inr plain ↦ pack_plain plain
    ]
