-- ===== src/Mupgrade/Node/Boot.antt =====
-- Runs of mupgrade_write: what is in the flash when the device boots the new firmware.
use mathlib.Core.Path.{subst}
use pio_esp_mdf_example.Prelude.{
  ℕ, ◌*◌, ◌<◌, ◌≤◌, ◌≡◌, ◌≢◌, inl, inr, length, refl, sym, ap, ◌∙◌, true, List, [], ◌∷◌, ◌++◌,
  Option, none, some, arith,
}
use pio_esp_mdf_example.Mupgrade.Progress.{progress_len, filled}
use pio_esp_mdf_example.Mupgrade.Send.{packet_num}
use pio_esp_mdf_example.Mupgrade.Progress.Bits.{length-set_bit}
use pio_esp_mdf_example.Mupgrade.Node.{Status, Config, Node, NodeApi, Done, Effect}
use pio_esp_mdf_example.Mupgrade.Node.Write.{Packet, write_configured, mupgrade_write}
use pio_esp_mdf_example.Mupgrade.Node.Whole.{boots, fresh-IsConsistent}
use pio_esp_mdf_example.Mupgrade.Node.Step.{
  append_nil, append_assoc, SteppedOrFault, Outcome, kept, wiped, wrote, write_configured-Stepped,
}
use pio_esp_mdf_example.Mupgrade.Node.Keeps.{IsInFlash, AllPackets, Keeps, step-Keeps}

-- A run of mupgrade_write, with what the system answers each time; the effects come in order. No
-- result is a fault on the way.
unfoldable pub run : Node → List (NodeApi × Packet) → Option (Node × List Effect)
run node [] = some (node, [])
run node ((api, p) ∷ steps) = elim (mupgrade_write api node p) [
  | none ↦ none
  | some d ↦ elim (run d.node steps) [ none ↦ none | some out ↦ some (out.0, d.effects ++ out.1) ]
]

run_nil : (node : Node) (out : Node × List Effect) → run node [] ≡ some out → (node, []) ≡ out
unfolding run
run_nil node out ran = ground (arith, ran)

pub mupgrade_write-write_configured :
    (api : NodeApi) (p : Packet) (node : Node) (c : Config)
    → node.config ≡ some c
    → mupgrade_write api node p ≡ write_configured api node c p
unfolding mupgrade_write
mupgrade_write-write_configured api p node c e = ground (arith, e)

abbrev IsFirst :
    NodeApi → Packet → List (NodeApi × Packet) → Node → Node × List Effect → Option Done → Type 0
IsFirst api p steps node out r =
    (d : Done) × (r ≡ some d)
    × (rest : Node × List Effect) × (run d.node steps ≡ some rest)
    × ((rest.0, d.effects ++ rest.1) ≡ out)

rest_of :
    (d : Done) (x : Option (Node × List Effect)) (out : Node × List Effect)
    → (elim x as (λ y. Option (Node × List Effect)) [
      | none ↦ none
      | some o ↦ some (o.0, d.effects ++ o.1)
    ])
      ≡ some out
    → (rest : Node × List Effect) × (x ≡ some rest) × ((rest.0, d.effects ++ rest.1) ≡ out)
rest_of d none out e = absurd (ground (arith, e))
rest_of d (some rest) out e = (rest, refl, ground (arith, e))

parts_from :
    (api : NodeApi) (p : Packet) (steps : List (NodeApi × Packet)) (node : Node)
    (out : Node × List Effect) (r : Option Done)
    → (elim r as (λ y. Option (Node × List Effect)) [
      | none ↦ none
      | some d ↦ elim (run d.node steps) [ none ↦ none | some o ↦ some (o.0, d.effects ++ o.1) ]
    ])
      ≡ some out
    → IsFirst api p steps node out r
parts_from api p steps node out none e = absurd (ground (arith, e))
parts_from api p steps node out (some d) e =
    let (rest, ran, same) = rest_of d (run d.node steps) out e in (d, refl, rest, ran, same)

-- A run of one call and others that does not fault.
run_parts :
    (node : Node) (api : NodeApi) (p : Packet) (steps : List (NodeApi × Packet))
    (out : Node × List Effect)
    → run node ((api, p) ∷ steps) ≡ some out
    → IsFirst api p steps node out (mupgrade_write api node p)
unfolding run
run_parts node api p steps out ran = parts_from api p steps node out (mupgrade_write api node p) ran

module _ (image : ℕ → List ℕ) (total : ℕ) (pos : 0 < total) (small : total ≤ 4096 * 1024) where
  run-Keeps :
      (steps : List (NodeApi × Packet)) (node : Node) (c : Config) (before : List Effect)
      (out : Node × List Effect)
      → node.config ≡ some c
      → AllPackets image total steps
      → Keeps image total pos small c.status before
      → run node steps ≡ some out
      → (c' : Config) × Keeps image total pos small c'.status (before ++ out.1)
  run-Keeps [] node c before out e packets k ran = (
    c,
    subst (λ fx. Keeps image total pos small c.status fx)
        (sym (append_nil before) ∙ ap (λ o. before ++ o.1) (run_nil node out ran)) k,
  )
  run-Keeps ((api, p) ∷ steps) node c before out e packets k ran =
      let (d, stepped, rest, ran', same) = run_parts node api p steps out ran in
      let (c', e', k') = step-Keeps image total pos small c p before d packets.0 k (
        subst (SteppedOrFault c p) (sym (mupgrade_write-write_configured api p node c e) ∙ stepped)
          (write_configured-Stepped api node c p)) in
      let (c'', k'') = run-Keeps steps d.node c' (before ++ d.effects) rest e' packets.1 k' ran' in
      (
        c'',
        subst (λ fx. Keeps image total pos small c''.status fx)
            (append_assoc before d.effects rest.1 ∙ ap (λ o. before ++ o.1) same) k'',
      )

  module _ (steps : List (NodeApi × Packet)) (node : Node) (c : Config) (e : node.config ≡ some c)
      (tot : c.status.total_size ≡ total) (none_written : c.status.written_size ≡ 0)
      (no_bits : c.status.progress_array ≡ filled 0) (packets : AllPackets image total steps) where
    -- Let mupgrade_write run from the start of an upgrade to a firmware of 1 byte to 4096 KiB, on
    -- packets of the firmware in any order, some of them repeated or missing, while writes to the
    -- flash, sends and boots may fail. If the device sets the new image to boot on the way, then every
    -- packet of the firmware has been written to its place in the flash.
    pub run-boots :
        {out : Node × List Effect}
        → run node steps ≡ some out
        → boots out.1 ≡ true
        → (seq : ℕ) → seq < packet_num total
        → IsInFlash image out.1 seq
    run-boots {out = out} ran b seq l =
        let fresh = fresh-IsConsistent total progress_len c.status refl tot none_written no_bits in
        let start : Keeps image total pos small c.status [] = (
          fresh.0,
          λ seq h. absurd (ground (arith, fresh.1 seq, h)),
          λ h seq l. absurd (ground arith),
        ) in
        let (c', k) = run-Keeps steps node c [] out e packets start ran in k.2 b seq l

-- A configuration that no packet makes fault.
abbrev IsSafe : Config → Type 0
IsSafe c =
    (0 < c.status.total_size)
    × (c.status.total_size < 4096 * 1024)
    × (length c.status.progress_array ≡ progress_len)
    × (c.partition ≢ none)

Outcome-safe :
    (s s' : Status) (p : Packet) (fx : List Effect)
    → Outcome s p s' fx
    → length s.progress_array ≡ progress_len
    → (s'.total_size ≡ s.total_size) × (length s'.progress_array ≡ progress_len)
Outcome-safe s s' p fx kept len = (refl, len)
Outcome-safe s s' p fx (wiped stop quiet) len = (refl, refl)
Outcome-safe s s' p fx (wrote running unset shape full) len =
    let size = length-set_bit s.progress_array p.seq ∙ len in
    elim shape [
      | inl e ↦ (ap (λ z. z.total_size) e, ap (λ z. length z.progress_array) e ∙ size)
      | inr e ↦ (ap (λ z. z.total_size) e, ap (λ z. length z.progress_array) e ∙ size)
    ]

step-IsSafe :
    (c : Config) (p : Packet) (r : Option Done)
    → IsSafe c
    → SteppedOrFault c p r
    → (d : Done) × (r ≡ some d) × (c' : Config) × (d.node.config ≡ some c') × IsSafe c'
step-IsSafe c p none (pos, small, len, there) h = absurd (elim h [
  | inl e ↦ omega (arith, e, pos)
  | inr (inl (inside, past)) ↦ omega (arith, inside, past, small, len)
  | inr (inr e) ↦ there e
])
step-IsSafe c p (some d) (pos, small, len, there) (c', e, same, o) =
    let (total, len') = Outcome-safe c.status c'.status p d.effects o len in
    (
      d,
      refl,
      c',
      e,
      (omega (arith, total, pos), omega (arith, total, small), len', λ n. there (sym same ∙ n)),
    )

run_cons :
    (api : NodeApi) (p : Packet) (steps : List (NodeApi × Packet)) (node : Node) (c : Config)
    (d : Done) (out : Node × List Effect)
    → node.config ≡ some c
    → write_configured api node c p ≡ some d
    → run d.node steps ≡ some out
    → run node ((api, p) ∷ steps) ≡ some (out.0, d.effects ++ out.1)
unfolding run
run_cons api p steps node c d out e step rest =
    let whole = mupgrade_write-write_configured api p node c e ∙ step in ground (arith, whole, rest)

-- From a configuration with a partition, a progress array of 512 bytes and a total size of more than
-- 0 and less than 4096 KiB, mupgrade_write never faults, whatever packets come, of the firmware or
-- not, and whatever fails: it divides by no total size of 0, accesses no byte past the progress array
-- and writes to no null partition.
pub run_never_faults :
    (steps : List (NodeApi × Packet)) (node : Node) (c : Config)
    → node.config ≡ some c
    → 0 < c.status.total_size
    → c.status.total_size < 4096 * 1024
    → length c.status.progress_array ≡ progress_len
    → c.partition ≢ none
    → (out : Node × List Effect) × (run node steps ≡ some out)
unfolding run
run_never_faults [] node c e pos small len there = ((node, []), refl)
run_never_faults ((api, p) ∷ steps) node c e pos small len there =
    let (d, ran, c', e', (pos', small', len', there')) =
      step-IsSafe c p (write_configured api node c p) (pos, small, len, there)
        (write_configured-Stepped api node c p) in
    let (out, rest) = run_never_faults steps d.node c' e' pos' small' len' there' in
    ((out.0, d.effects ++ out.1), run_cons api p steps node c d out e ran rest)
