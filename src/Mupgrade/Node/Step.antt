-- ===== src/Mupgrade/Node/Step.antt =====
-- One call of mupgrade_write: what it does to the status, and how that shows in the effects.
use pio_esp_mdf_example.Prelude.{
  ℕ, ◌*◌, ◌/◌, ◌≤◌, ◌≡◌, ◌≢◌, refl, ap, true, false, List, [], ◌∷◌, ◌++◌, Option, none, some,
  length, ltb, ◌==◌, arith, take, Bool-cases, inl, inr, ◌⊎◌,
}
use pio_esp_mdf_example.Mcommon.Err.{mdf_ok}
use pio_esp_mdf_example.Mupgrade.Err.{err_stop}
use pio_esp_mdf_example.Mupgrade.Progress.{get_bit, packet_max_size}
use pio_esp_mdf_example.Mupgrade.Node.{
  Status, Config, Node, NodeApi, Done, Effect, flash_write, cleared,
}
use pio_esp_mdf_example.Mupgrade.Node.Write.{
  Packet, noted, progress_report, note_written, is_past, is_null, write_configured,
}
use pio_esp_mdf_example.Mupgrade.Node.Whole.{boots, boots-progress_report}

pub append_nil : (xs : List Effect) → xs ++ [] ≡ xs
append_nil [] = refl
append_nil (x ∷ xs) = ap (◌∷◌ x) (append_nil xs)

pub append_assoc : (xs ys zs : List Effect) → (xs ++ ys) ++ zs ≡ xs ++ (ys ++ zs)
append_assoc [] ys zs = refl
append_assoc (x ∷ xs) ys zs = ap (◌∷◌ x) (append_assoc xs ys zs)

-- The effect is among those of the list.
abbrev pub Occurs : Effect → List Effect → Type 0
Occurs e [] = ⊥
Occurs e (x ∷ xs) = (x ≡ e) ⊎ Occurs e xs

pub Occurs-left : (e : Effect) (xs ys : List Effect) → Occurs e xs → Occurs e (xs ++ ys)
Occurs-left e [] ys h = elim h [ ]
Occurs-left e (x ∷ xs) ys (inl h) = inl h
Occurs-left e (x ∷ xs) ys (inr h) = inr (Occurs-left e xs ys h)

pub Occurs-right : (e : Effect) (xs ys : List Effect) → Occurs e ys → Occurs e (xs ++ ys)
Occurs-right e [] ys h = h
Occurs-right e (x ∷ xs) ys h = inr (Occurs-right e xs ys h)

-- What one packet does to the status, and how it shows in the effects.
pub data Outcome (s : Status) (p : Packet) : Status → List Effect → Type 0 where
  kept : Outcome s p s []
  wiped :
      {fx : List Effect} → s.error_code ≡ err_stop → boots fx ≡ false → Outcome s p (cleared s) fx
  wrote :
      {s' : Status} {fx : List Effect}
      → s.error_code ≢ err_stop
      → get_bit s.progress_array p.seq ≡ false
      → (s' ≡ noted s p) ⊎ (s' ≡ record (noted s p) { written_size = 0; error_code = err_stop })
      → (boots fx ≡ true → (noted s p).written_size ≡ s.total_size)
      → Outcome s p s' (flash_write (p.seq * packet_max_size) (take p.size p.bytes) ∷ fx)

-- The configuration is there after a packet, for the same partition, and the packet had one of the
-- outcomes.
abbrev pub Stepped : Config → Packet → Done → Type 0
Stepped c p d =
    (c' : Config) × (d.node.config ≡ some c')
    × (c'.partition ≡ c.partition)
    × Outcome c.status p c'.status d.effects

-- What a fault comes from: a total size of 0, a packet inside the total size whose bit is past the
-- array, or a null partition.
abbrev pub IsFault : Config → Packet → Type 0
IsFault c p =
    (c.status.total_size ≡ 0)
    ⊎ ((p.seq * 1024 ≤ c.status.total_size) × (length c.status.progress_array ≤ p.seq / 8))
    ⊎ (c.partition ≡ none)

abbrev pub SteppedOrFault : Config → Packet → Option Done → Type 0
SteppedOrFault c p none = IsFault c p
SteppedOrFault c p (some d) = Stepped c p d

module _ (api : NodeApi) (node : Node) (c : Config) (p : Packet) where
  note_written-Stepped :
      c.status.error_code ≢ err_stop
      → get_bit c.status.progress_array p.seq ≡ false
      → SteppedOrFault c p (note_written api node c p)
  unfolding note_written
  note_written-Stepped running unset =
      let s = noted c.status p in
      let reports = (progress_report s node.next_percentage).1 in
      let quiet = boots-progress_report s node.next_percentage in
      elim (Bool-cases (s.total_size == 0)) [
        | inl e ↦ rw e (inl (ground arith))
        | inr e ↦ rw e (elim (Bool-cases (s.written_size == s.total_size)) [
          | inr short ↦ rw short (
            record c { status = s },
            refl,
            refl,
            wrote running unset (inl refl) (λ b. ground arith),
          )
          | inl full ↦
              let whole : s.written_size ≡ c.status.total_size = ground arith in
              rw full (elim (Bool-cases (api.boot == mdf_ok)) [
                | inl ok ↦ rw ok (
                  record c { status = s },
                  refl,
                  refl,
                  wrote running unset (inl refl) (λ b. whole),
                )
                | inr bad ↦ rw bad (
                  record c { status = record s { written_size = 0; error_code = err_stop } },
                  refl,
                  refl,
                  wrote running unset (inr refl) (λ b. whole),
                )
              ])
        ])
      ]

null_partition : (partition : Option ℕ) → is_null partition ≡ true → partition ≡ none
null_partition none h = refl
null_partition (some partition) h = ground (arith, h)

module _ (api : NodeApi) (node : Node) (c : Config) (p : Packet) where
  pub write_configured-Stepped : SteppedOrFault c p (write_configured api node c p)
  unfolding write_configured
  write_configured-Stepped = elim (Bool-cases (c.status.error_code == err_stop)) [
    | inl e ↦ rw e (record c { status = cleared c.status }, refl, refl, wiped (ground arith) refl)
    | inr e ↦ rw e (elim (Bool-cases (ltb c.status.total_size (p.seq * packet_max_size))) [
      | inl far ↦ rw far (c, refl, refl, kept)
      | inr near ↦ rw near (elim (Bool-cases (is_past c.status.progress_array p.seq)) [
        | inl past ↦ rw past (inr (inl (ground arith, ground arith)))
        | inr inside ↦ rw inside (elim (Bool-cases (get_bit c.status.progress_array p.seq)) [
          | inl dup ↦ rw dup (c, refl, refl, kept)
          | inr unset ↦ rw unset (elim (Bool-cases (is_null c.partition)) [
            | inl null ↦ rw null (inr (inr (null_partition c.partition null)))
            | inr there ↦
                rw there
                  (elim (Bool-cases (
                    api.write c.partition (p.seq * packet_max_size) (take p.size p.bytes)
                    == mdf_ok)) [
                      | inl ok ↦ rw ok (
                          note_written-Stepped api (record node { config = some c }) c p
                            (ground arith) unset)
                      | inr bad ↦ rw bad (c, refl, refl, kept)
                    ])
          ])
        ])
      ])
    ])
  ]
