-- ===== src/Mupgrade/Node/Keeps.antt =====
-- What one call of mupgrade_write keeps: set bits are parts in the flash.
use mathlib.Core.Path.{subst}
use pio_esp_mdf_example.Prelude.{
  ℕ, ◌*◌, ◌<◌, ◌≤◌, ◌≡◌, ◌≢◌, refl, sym, ap, true, false, List, [], ◌∷◌, ◌++◌, some, ◌==◌, arith,
  take, Bool-cases, inl, inr,
}
use pio_esp_mdf_example.Mupgrade.Err.{err_stop}
use pio_esp_mdf_example.Mupgrade.Progress.{get_bit, packet_max_size, progress_len}
use pio_esp_mdf_example.Mupgrade.Progress.Bits.{
  get_bit-set_bit, get_bit-replicate, replicate-IsBytes,
}
use pio_esp_mdf_example.Mupgrade.Send.{packet_num}
use pio_esp_mdf_example.Mupgrade.Node.{Status, Config, NodeApi, Done, Effect, flash_write}
use pio_esp_mdf_example.Mupgrade.Node.Write.{Packet, noted}
use pio_esp_mdf_example.Mupgrade.Node.Whole.{
  IsPart, IsConsistent, boots, boots-append, noted-IsConsistent, noted-AllSet,
}
use pio_esp_mdf_example.Mupgrade.Node.Step.{
  Occurs, Occurs-left, Occurs-right, Outcome, kept, wiped, wrote, Stepped,
}

module _ (image : ℕ → List ℕ) where
  abbrev pub IsInFlash : List Effect → ℕ → Type 0
  IsInFlash fx seq = Occurs (flash_write (seq * 1024) (image seq)) fx

module _ (image : ℕ → List ℕ) (total : ℕ) where
  -- The packet is the part of the image with its number.
  abbrev pub IsPacket : Packet → Type 0
  IsPacket p = IsPart total p × (take p.size p.bytes ≡ image p.seq)

  abbrev pub AllPackets : List (NodeApi × Packet) → Type 0
  AllPackets [] = Unit {0}
  AllPackets (step ∷ steps) = IsPacket step.1 × AllPackets steps

module _ (image : ℕ → List ℕ) (total : ℕ) (pos : 0 < total) (small : total ≤ 4096 * 1024) where
  -- A set bit is a part in the flash, and all parts are there when the device boots the image.
  abbrev pub Keeps : Status → List Effect → Type 0
  Keeps s fx =
      IsConsistent total s
      × ((seq : ℕ) → get_bit s.progress_array seq ≡ true → IsInFlash image fx seq)
      × (boots fx ≡ true → (seq : ℕ) → seq < packet_num total → IsInFlash image fx seq)

  -- What was in the flash stays there, and the effects of one step come behind.
  IsInFlash-append :
      (before fx : List Effect) (seq : ℕ)
      → IsInFlash image before seq
      → IsInFlash image (before ++ fx) seq
  IsInFlash-append before fx seq h = Occurs-left (flash_write (seq * 1024) (image seq)) before fx h

  IsInFlash-packet :
      (before fx : List Effect) (p : Packet)
      → IsPacket image total p
      → IsInFlash image
          (before ++ flash_write (p.seq * packet_max_size) (take p.size p.bytes) ∷ fx)
          p.seq
  IsInFlash-packet before fx p packet =
      Occurs-right (flash_write (p.seq * 1024) (image p.seq)) before
        (flash_write (p.seq * packet_max_size) (take p.size p.bytes) ∷ fx)
        (inl (ap (flash_write (p.seq * 1024)) packet.1))

  module _ (s : Status) (p : Packet) (fx before : List Effect) (packet : IsPacket image total p)
      (k : Keeps s before) where
    wrote_bits :
        get_bit s.progress_array p.seq ≡ false
        → (seq : ℕ) → get_bit (noted s p).progress_array seq ≡ true
        → IsInFlash image
            (before ++ flash_write (p.seq * packet_max_size) (take p.size p.bytes) ∷ fx)
            seq
    wrote_bits unset seq h =
        let bits =
          get_bit-set_bit s.progress_array p.seq seq k.0.2 (ground (arith, packet.0.0, k.0.1)) in
        elim (Bool-cases (p.seq == seq)) [
          | inl e ↦
              let same : p.seq ≡ seq = ground arith in
              subst
                (λ n.
                  IsInFlash image
                    (before ++ flash_write (p.seq * packet_max_size) (take p.size p.bytes) ∷ fx) n)
                same (IsInFlash-packet before fx p packet)
          | inr e ↦
              let set : get_bit s.progress_array seq ≡ true = ground (arith, bits, h, e) in
              IsInFlash-append before _ seq (k.1 seq set)
        ]

    wrote_boots :
        s.error_code ≢ err_stop
        → get_bit s.progress_array p.seq ≡ false
        → (boots fx ≡ true → (noted s p).written_size ≡ s.total_size)
        → boots (before ++ flash_write (p.seq * packet_max_size) (take p.size p.bytes) ∷ fx) ≡ true
        → (seq : ℕ) → seq < packet_num total
        → IsInFlash image
            (before ++ flash_write (p.seq * packet_max_size) (take p.size p.bytes) ∷ fx)
            seq
    wrote_boots running unset full b seq h =
        let either =
          boots-append before (flash_write (p.seq * packet_max_size) (take p.size p.bytes) ∷ fx) in
        let consistent = noted-IsConsistent total pos small s p packet.0 k.0 running unset in
        elim (Bool-cases (boots before)) [
          | inl e ↦ IsInFlash-append before _ seq (k.2 e seq h)
          | inr e ↦
              let now : boots fx ≡ true = ground (arith, either, b, e) in
              wrote_bits unset seq
                (noted-AllSet total pos small (noted s p) seq consistent running (full now) h)
        ]

  Outcome-Keeps :
      (s : Status) (p : Packet) (s' : Status) (fx before : List Effect)
      → IsPacket image total p
      → Outcome s p s' fx
      → Keeps s before
      → Keeps s' (before ++ fx)
  Outcome-Keeps s p s' fx before packet kept k =
      let b = boots-append before [] in
      (
        k.0,
        λ seq h. IsInFlash-append before [] seq (k.1 seq h),
        λ h seq l. IsInFlash-append before [] seq (k.2 (ground (arith, b, h)) seq l),
      )
  Outcome-Keeps s p s' fx before packet (wiped stop quiet) k =
      let b = boots-append before fx in
      (
        (k.0.0, refl, replicate-IsBytes progress_len, inl stop),
        λ seq h. absurd (ground (arith, get_bit-replicate progress_len seq, h)),
        λ h seq l. IsInFlash-append before fx seq (k.2 (ground (arith, b, h, quiet)) seq l),
      )
  Outcome-Keeps s p s' fx before packet (wrote {fx = rest} running unset shape full) k =
      let consistent = noted-IsConsistent total pos small s p packet.0 k.0 running unset in
      let bits = wrote_bits s p rest before packet k unset in
      let boot = wrote_boots s p rest before packet k running unset full in
      let after = before ++ flash_write (p.seq * packet_max_size) (take p.size p.bytes) ∷ rest in
      elim shape [
        | inl e ↦ subst (λ z. Keeps z after) (sym e) (consistent, bits, boot)
        | inr e ↦
            subst (λ z. Keeps z after) (sym e)
              ((consistent.0, consistent.1, consistent.2, inl refl), bits, boot)
      ]

  -- A step from a configuration keeps what is kept.
  pub step-Keeps :
      (c : Config) (p : Packet) (before : List Effect) (d : Done)
      → IsPacket image total p
      → Keeps c.status before
      → Stepped c p d
      → (c' : Config) × (d.node.config ≡ some c') × Keeps c'.status (before ++ d.effects)
  step-Keeps c p before d packet k (c', e, same, o) =
      (c', e, Outcome-Keeps c.status p c'.status d.effects before packet o k)
