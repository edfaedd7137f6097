-- ===== src/Mwifi/RootWrite.antt =====
-- mwifi_root_write of esp-mdf/components/mwifi/mwifi.c: the root sends a message to the devices on a
-- list, to a group, or to all.
pub mod Meant
pub mod Reaches
use pio_esp_mdf_example.Prelude.{
  ℕ, zero, suc, ◌+◌, Bool, true, false, not, ◌&&◌, ◌||◌, List, [], ◌∷◌, ◌++◌, map, Option, none,
  some, length, ltb, leb, get_or, ◌==◌, if◌then◌else◌,
}
use pio_esp_mdf_example.Mcommon.Err.{
  Err, mdf_ok, mdf_err_no_mem, mdf_err_invalid_arg, mdf_err_not_supported,
}
use pio_esp_mdf_example.Mwifi.Err.{MeshErr, err_not_start}
use pio_esp_mdf_example.Mwifi.Packet.{
  DataType, Head, Packet, with_total_size, communicate_unicast, communicate_multicast,
  communicate_broadcast,
}
use pio_esp_mdf_example.Mwifi.Fragment.{Link, Sent, subcontract_write}
use pio_esp_mdf_example.Mwifi.Transmit.{
  Addr, addr_any, addr_broadcast, addrs_remove, TransmitApi, Call, transmit_write,
}
use pio_esp_mdf_example.Mwifi.Write.{
  Deflated, Node, Posted, Route, from_ds, Written, Packed, packed, not_packed, addr_none, pack,
  mwifi_write,
}

-- The result, the messages to single devices, the calls of mwifi_transmit_write to others, and whether
-- the buffer of the compressed message is left allocated.
pub record RootWritten : Type 0 where
  pub ret : Err
  pub posts : List Posted
  pub calls : List Call
  pub leaks : Bool

abbrev pub ended : Err → RootWritten
ended e = record { ret = e; posts = []; calls = []; leaks = false }

-- What the root knows besides what a node knows: the routing table, and whether a copy of the addresses
-- can be allocated. `links` are the answers for the i-th device.
pub record Root : Type 0 where
  pub node : Node
  pub routing_table : List Addr
  pub addrs_memory : Bool
  pub links : ℕ → Link
  pub api : TransmitApi

module _ (compress : List ℕ → Deflated) (codes : MeshErr) (root : Root) where
  -- The message to each device of a group address, until one fails.
  unfoldable pub group_writes : Head → DataType → List ℕ → Bool → ℕ → Err → List Addr → RootWritten
  group_writes empty_head t bytes block i ret [] = ended ret
  group_writes empty_head t bytes block i ret (a ∷ addrs) =
      let w =
        mwifi_write compress codes (root.links i) root.node empty_head (some a) (some t)
          (some bytes) block in
      let rest = group_writes empty_head t bytes block (i + 1) w.ret addrs in
      let posts : List Posted = elim w.posted [ none ↦ [] | some p ↦ p ∷ [] ] in
      if w.ret == mdf_ok
      then record rest { posts = posts ++ rest.posts }
      else record { ret = w.ret; posts = posts; calls = []; leaks = false }

  abbrev pub from_root : Bool → Head → List ℕ → Addr → Posted
  from_root block head bytes a = record {
    dest = a;
    route = from_ds;
    dropped = false;
    nonblock = not block;
    head = with_total_size head (length bytes);
    message = bytes;
  }

  -- The message to each device by itself, until one fails; `ret` is the last result.
  unfoldable pub each_device : Bool → Head → List ℕ → ℕ → Err → List Addr → RootWritten
  each_device block head bytes i ret [] = ended ret
  each_device block head bytes i ret (a ∷ addrs) =
      let link : Link = record (root.links i) { group = false } in
      let out = subcontract_write codes link head bytes in
      let rest = each_device block head bytes (i + 1) out.ret addrs in
      let post = from_root block head bytes a in
      if out.ret == mdf_ok
      then record rest { posts = post ∷ rest.posts }
      else record { ret = out.ret; posts = post ∷ []; calls = []; leaks = false }

  -- The devices that a list of addresses stands for: the first one may stand for all, or for all but
  -- the root.
  unfoldable pub targets : List Addr → List Addr
  targets addrs =
      let first = get_or addrs 0 0 in
      if first == addr_broadcast
      then (addrs_remove root.routing_table root.node.self_mac).1
      else if first == addr_any
      then root.routing_table
      else addrs

  unfoldable pub send_packed : Bool → DataType → Head → List ℕ → List Addr → RootWritten
  send_packed block t head bytes addrs =
      let first = get_or addrs 0 0 in
      let many = first == addr_any || first == addr_broadcast in
      let few =
        first == addr_broadcast
        && (length (targets addrs) == 0 || ltb 2048 (length (targets addrs))) in
      let (ret, calls) = transmit_write root.api head addrs bytes in
      if t.communicate == communicate_unicast
      then if many && (not root.addrs_memory || few)
        then ended mdf_err_no_mem
        else each_device block head bytes 0 (if many then mdf_err_no_mem else mdf_ok)
            (targets addrs)
      else if t.communicate == communicate_multicast
      then if not root.addrs_memory
        then ended mdf_err_no_mem
        else record { ret = ret; posts = []; calls = calls; leaks = false }
      else if t.communicate == communicate_broadcast && length addrs == 1
      then each_device block head bytes 0 mdf_ok addrs
      else record { ret = mdf_err_not_supported; posts = []; calls = []; leaks = t.compression }

  unfoldable pub mwifi_root_write :
      Head → Option (List Addr) → Option DataType → Option (List ℕ) → Bool → RootWritten
  mwifi_root_write empty_head none t bytes block = ended mdf_err_invalid_arg
  mwifi_root_write empty_head (some addrs) none bytes block = ended mdf_err_invalid_arg
  mwifi_root_write empty_head (some addrs) (some t) none block = ended mdf_err_invalid_arg
  mwifi_root_write empty_head (some addrs) (some t) (some bytes) block =
      let head : Head = record empty_head { transmit_self = true; data_type = t } in
      let compressed : RootWritten = elim (pack compress root.node.compress_memory head bytes) [
        | not_packed e ↦ ended e
        | packed head' bytes' ↦ send_packed block t head' bytes' addrs
      ] in
      if length addrs == 0
      then ended mdf_err_invalid_arg
      else if get_or addrs 0 0 == addr_none || length bytes == 0 || leb 8096 (length bytes)
      then ended mdf_err_invalid_arg
      else if not root.node.started
      then ended err_not_start
      else if t.group && not (t.communicate == communicate_broadcast)
      then group_writes empty_head t bytes block 0 mdf_ok addrs
      else compressed
