-- ===== src/Mwifi/Fragment.antt =====
-- mwifi_subcontract_write of esp-mdf/components/mwifi/mwifi.c: a message goes out in packets of at most
-- 1456 bytes.
use pio_esp_mdf_example.Prelude.{
  ℕ, zero, suc, ◌+◌, ◌%◌, Bool, not, ◌&&◌, List, [], ◌∷◌, length, take, drop, ◌==◌, if◌then◌else◌,
}
use pio_esp_mdf_example.Mcommon.Err.{Err, mdf_ok, mdf_err_timeout}
use pio_esp_mdf_example.Mwifi.Err.{MeshErr}
use pio_esp_mdf_example.Mwifi.Packet.{Head, Packet, payload_len, with_total_size}

-- What the system answers: esp_mesh_send at its k-th call; xSemaphoreTake and esp_random for the j-th
-- packet. `group` is whether the flags hold MESH_DATA_GROUP.
pub record Link : Type 0 where
  pub result : ℕ → Err
  pub locked : ℕ → Bool
  pub random : ℕ → ℕ
  pub group : Bool

-- `sent` are the packets that the mesh library has taken, and `next` counts the calls of
-- esp_mesh_send.
pub record Sent : Type 0 where
  pub ret : Err
  pub next : ℕ
  pub sent : List Packet

module _ (codes : MeshErr) (link : Link) where
  -- The inner loop, with `suc n` tries left: the calls from number `k` on.
  unfoldable pub try_send : ℕ → ℕ → Err × ℕ
  try_send zero k = (link.result k, k + 1)
  try_send (suc n) k =
      let rest = try_send n (k + 1) in
      if link.result k == codes.no_memory then rest else (link.result k, k + 1)

  abbrev pub fragment : Head → ℕ → ℕ → List ℕ → Packet
  fragment head j seq bytes = record {
    head = record head { magic = link.random j; packet_seq = seq };
    payload = take payload_len bytes;
  }

  -- The outer loop, on fuel: packet number `j`, with the sequence number `seq` of 3 bits.
  unfoldable pub write_fragments : Head → ℕ → ℕ → ℕ → ℕ → List ℕ → Sent
  write_fragments head zero k j seq bytes = record { ret = mdf_ok; next = k; sent = [] }
  write_fragments head (suc fuel) k j seq bytes =
      let (ret, k') = try_send 2 k in
      let rest = write_fragments head fuel k' (j + 1) ((seq + 1) % 8) (drop payload_len bytes) in
      if length bytes == 0
      then record { ret = mdf_ok; next = k; sent = [] }
      else if not (link.locked j)
      then record { ret = mdf_err_timeout; next = k; sent = [] }
      else if ret == mdf_ok
      then record rest { sent = fragment head j seq bytes ∷ rest.sent }
      else if link.group && ret == codes.discard
      then rest
      else record { ret = ret; next = k'; sent = [] }

  -- The whole function; every turn of the loop takes bytes, so the fuel is enough.
  unfoldable pub subcontract_write : Head → List ℕ → Sent
  subcontract_write head bytes =
      write_fragments (with_total_size head (length bytes)) (suc (length bytes)) 0 0 0 bytes
