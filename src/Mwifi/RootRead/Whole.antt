-- ===== src/Mwifi/RootRead/Whole.antt =====
-- What a caller of __mwifi_root_read gets.
use mathlib.Core.Path.{subst, ap₂}
use pio_esp_mdf_example.Prelude.{
  ℕ, ◌<◌, ◌≤◌, ◌≡◌, refl, sym, ap, ◌∙◌, true, false, List, [], ◌∷◌, ◌++◌, map, some, length, arith,
}
use pio_esp_mdf_example.Mcommon.Err.{mdf_ok}
use pio_esp_mdf_example.Mwifi.Err.{MeshErr}
use pio_esp_mdf_example.Mwifi.Packet.{DataType, Head, payload_len}
use pio_esp_mdf_example.Mwifi.Fragment.{Link, subcontract_write}
use pio_esp_mdf_example.Mwifi.Receive.{
  Answer, received, not_start, Reading, complete, read_all, read_turn,
}
use pio_esp_mdf_example.Mwifi.Receive.RoundTrip.{read-subcontract_write}
use pio_esp_mdf_example.Mwifi.RootRead.{
  Buffer, external, internal, Inflated, Message, returned, hand_over, root_read,
}

-- The buffer of the caller holds so many bytes.
abbrev pub Fits : ℕ → Buffer → Type 0
Fits n internal = Unit {0}
Fits n (external size) = n ≤ size

module _ (uncompress : ℕ → List ℕ → Inflated) where
  pub hand_over_plain :
      (fuel : ℕ) (buffer : Buffer) (t : DataType) (rate : ℕ) (bytes : List ℕ)
      → t.compression ≡ false
      → Fits (length bytes) buffer
      → hand_over uncompress fuel buffer t rate bytes
        ≡ some (record { ret = mdf_ok; data_type = some t; bytes = bytes })
  unfolding hand_over
  hand_over_plain fuel internal t rate bytes plain fits = ground arith
  hand_over_plain fuel (external size) t rate bytes plain fits = ground arith

  pub root_read-complete :
      (fuel : ℕ) (empty_head : Head) (buffer : Buffer) (answers rest : List Answer) (r : Reading)
      (m : Message)
      → 0 < length r.bytes
      → Fits (length r.bytes) buffer
      → read_all
          (record {
            bytes = [];
            capacity = payload_len;
            total = 0;
            expect_seq = 0;
            head = empty_head;
          })
          answers
        ≡ complete r rest
      → length r.bytes ≤ r.capacity
      → hand_over uncompress fuel buffer r.head.data_type r.head.compress_rate r.bytes ≡ some m
      → root_read uncompress fuel empty_head true true buffer answers ≡ returned m rest
  unfolding root_read
  root_read-complete fuel empty_head internal answers rest r m pos fits whole room given =
      ground (arith, whole, given)
  root_read-complete fuel empty_head (external size) answers rest r m pos fits whole room given =
      ground (arith, whole, given)

  -- If mwifi_subcontract_write sends an uncompressed message of 1 to 8191 bytes with success and its
  -- packets arrive in order, then __mwifi_root_read returns MDF_OK with the type and exactly the bytes of
  -- the message, to a buffer that it allocates or to one of the caller that is large enough, and leaves
  -- later packets where they are.
  root_read-subcontract_write :
      (codes : MeshErr) (link : Link) (head empty_head : Head) (bytes : List ℕ) (buffer : Buffer)
      (fuel : ℕ) (rest : List Answer)
      → link.group ≡ false
      → head.data_type.compression ≡ false
      → 0 < length bytes
      → length bytes ≤ 8191
      → Fits (length bytes) buffer
      → (subcontract_write codes link head bytes).ret ≡ mdf_ok
      → root_read uncompress fuel empty_head true true buffer
          (map received (subcontract_write codes link head bytes).sent ++ rest)
        ≡ returned (record { ret = mdf_ok; data_type = some head.data_type; bytes = bytes }) rest
  root_read-subcontract_write codes link head empty_head bytes buffer fuel rest single plain pos
        small fits ok =
      let start : Reading = record {
        bytes = [];
        capacity = payload_len;
        total = 0;
        expect_seq = 0;
        head = empty_head;
      } in
      let (r, whole, b, room, t, rate) =
        read-subcontract_write codes link single head bytes start rest pos small refl refl
          (omega arith) ok in
      let len = ap length b in
      let fits' : Fits (length r.bytes) buffer = subst (λ n. Fits n buffer) (sym len) fits in
      let plain' : r.head.data_type.compression ≡ false =
        ap (λ (d : DataType). d.compression) t ∙ plain in
      root_read-complete fuel empty_head buffer
        (map received (subcontract_write codes link head bytes).sent ++ rest) rest r
        (record { ret = mdf_ok; data_type = some r.head.data_type; bytes = r.bytes })
        (omega (arith, len, pos)) fits' whole (omega (arith, len, room))
        (hand_over_plain fuel buffer r.head.data_type r.head.compress_rate r.bytes plain' fits')
      ∙ ap₂
          (λ (d : DataType) (bs : List ℕ).
            returned (record { ret = mdf_ok; data_type = some d; bytes = bs }) rest)
          t b

  -- If the mesh is not started when __mwifi_root_read first asks for a packet, the loop counts the
  -- sequence number up and ends, and the call returns MDF_OK with a message of no bytes.
  not_start_succeeds :
      (fuel : ℕ) (empty_head : Head) (buffer : Buffer) (rest : List Answer)
      → empty_head.data_type.compression ≡ false
      → Fits 1 buffer
      → root_read uncompress fuel empty_head true true buffer (not_start ∷ rest)
        ≡ returned (record { ret = mdf_ok; data_type = some empty_head.data_type; bytes = [] }) rest
  unfolding root_read read_all read_turn hand_over
  not_start_succeeds fuel empty_head internal [] plain room = ground arith
  not_start_succeeds fuel empty_head (external size) [] plain room = ground arith
  not_start_succeeds fuel empty_head internal (a ∷ rest) plain room = ground arith
  not_start_succeeds fuel empty_head (external size) (a ∷ rest) plain room = ground arith
