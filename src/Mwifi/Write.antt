-- ===== src/Mwifi/Write.antt =====
-- mwifi_write of esp-mdf/components/mwifi/mwifi.c: a message of a node goes to one device, to a group,
-- or to the root.
pub mod Unpack
pub mod Deliver
use pio_esp_mdf_example.Prelude.{
  ℕ, zero, suc, ◌+◌, ◌*◌, ◌/◌, ◌%◌, Bool, true, false, not, ◌&&◌, ◌||◌, List, [], ◌∷◌, ◌++◌, length,
  Option, none, some, ltb, leb, ◌==◌, if◌then◌else◌,
}
use pio_esp_mdf_example.Mcommon.Err.{Err, mdf_ok, mdf_err_no_mem, mdf_err_invalid_arg}
use pio_esp_mdf_example.Mwifi.Err.{MeshErr, err_not_start, err_no_root}
use pio_esp_mdf_example.Mwifi.Packet.{
  DataType, Head, Packet, with_total_size, communicate_unicast, communicate_multicast,
  communicate_broadcast,
}
use pio_esp_mdf_example.Mwifi.Fragment.{Link, Sent, subcontract_write}
use pio_esp_mdf_example.Mwifi.Transmit.{Addr, addr_any, addr_broadcast, addr_bytes}

-- MWIFI_ADDR_NONE and MWIFI_ADDR_ROOT
abbrev pub addr_none : Addr
addr_none = 0

abbrev pub addr_root : Addr
addr_root = 0xff00_0001_0000

-- What compress of miniz answers.
pub data Deflated : Type 0 where
  deflated : List ℕ → Deflated
  deflate_error : Err → Deflated

-- What the node is: the globals that the function reads, its own address, and whether the buffers can
-- be allocated.
pub record Node : Type 0 where
  pub started : Bool
  pub rootless : Bool
  pub data_drop_enable : Bool
  pub self_mac : Addr
  pub compress_memory : Bool
  pub group_memory : Bool

-- MESH_DATA_TODS, MESH_DATA_P2P, MESH_DATA_GROUP and MESH_DATA_FROMDS, of which a call has one.
pub data Route : Type 0 where
  to_ds : Route
  p2p : Route
  group_route : Route
  from_ds : Route

-- What goes to mwifi_subcontract_write, with the flags MESH_DATA_DROP and MESH_DATA_NONBLOCK.
pub record Posted : Type 0 where
  pub dest : Addr
  pub route : Route
  pub dropped : Bool
  pub nonblock : Bool
  pub head : Head
  pub message : List ℕ

pub record Written : Type 0 where
  pub ret : Err
  pub posted : Option Posted
  pub sent : List Packet

-- The message and its head after the compression, or the error.
pub data Packed : Type 0 where
  packed : Head → List ℕ → Packed
  not_packed : Err → Packed

abbrev pub refused : Err → Written
refused e = record { ret = e; posted = none; sent = [] }

-- The addresses that stand for many devices: the type and the address that go out.
unfoldable pub address : Node → DataType → Bool → Addr → DataType × Addr
address node t to_root dest =
    let broadcast = t.communicate == communicate_broadcast in
    let anyone = dest == addr_broadcast || dest == addr_any in
    let as_group : DataType = record t { communicate = communicate_multicast; group = true } in
    let as_unicast : DataType = record t { communicate = communicate_unicast } in
    if broadcast
    then (t, if not t.group && dest == addr_broadcast then addr_any else dest)
    else if to_root
    then (t, dest)
    else if not t.group && anyone
    then (as_group, if dest == addr_broadcast then node.self_mac else dest)
    else (as_unicast, dest)

-- The compressed message, if it is not longer; else the message goes out as it is.
abbrev pub choose : Head → List ℕ → Deflated → Packed
choose head bytes (deflate_error e) = not_packed e
choose head bytes (deflated c) =
    let rate = length bytes / length c + 1 in
    let plain : Head = record head {
      data_type = record (head.data_type) { compression = false };
    } in
    let rated : Head = record head { compress_rate = if leb 15 rate then 15 else rate } in
    if ltb (length bytes) (length c) then packed plain bytes else packed rated c

module _ (compress : List ℕ → Deflated) where
  -- The compression; `memory` is whether its buffer can be allocated.
  unfoldable pub pack : Bool → Head → List ℕ → Packed
  pack memory head bytes =
      if not head.data_type.compression
      then packed head bytes
      else if not memory
      then not_packed mdf_err_no_mem
      else choose head bytes (compress bytes)

  module _ (codes : MeshErr) (link : Link) where
    -- The end of the function: the packed message goes out, in front of it the address if it is for a
    -- group.
    unfoldable pub post : Node → DataType → Bool → Addr → Bool → Head → List ℕ → Written
    post node t to_root dest block head bytes =
        let grouped =
          not to_root && head.data_type.group && not (t.communicate == communicate_broadcast) in
        let all = t.communicate == communicate_broadcast && t.group in
        let message = if grouped then addr_bytes (dest ∷ []) ++ bytes else bytes in
        let forwarded : Head = record head { transmit_num = 1; transmit_all = true } in
        let head' = with_total_size (if grouped then forwarded else head) (length message) in
        let out = subcontract_write codes (record link { group = all }) head' message in
        let posted : Posted = record {
          dest = if grouped then addr_none else dest;
          route = if all then group_route else if to_root then to_ds else p2p;
          dropped = node.data_drop_enable;
          nonblock = not block;
          head = head';
          message = message;
        } in
        if grouped && not node.group_memory
        then refused mdf_err_no_mem
        else record { ret = out.ret; posted = some posted; sent = out.sent }

    -- The whole function. `empty_head` is the head that is all 0; the missing address stands for the
    -- null pointer.
    unfoldable pub mwifi_write :
        Node → Head → Option Addr → Option DataType → Option (List ℕ) → Bool → Written
    mwifi_write node empty_head dest none bytes block = refused mdf_err_invalid_arg
    mwifi_write node empty_head dest (some t) none block = refused mdf_err_invalid_arg
    mwifi_write node empty_head dest (some t) (some bytes) block =
        let to_root : Bool = elim dest [ none ↦ true | some a ↦ false ] in
        let empty : Bool = elim dest [ none ↦ false | some a ↦ a == addr_none ] in
        let target : Addr = elim dest [
          | none ↦ addr_root
          | some a ↦ if a == addr_root then addr_none else a
        ] in
        let (t', target') = address node t to_root target in
        let head : Head = record empty_head { transmit_self = true; data_type = t' } in
        if length bytes == 0 || leb 8096 (length bytes) || empty
        then refused mdf_err_invalid_arg
        else if not node.started
        then refused err_not_start
        else if to_root && node.rootless
        then refused err_no_root
        else elim (pack node.compress_memory head bytes) [
          | not_packed e ↦ refused e
          | packed head' bytes' ↦ post node t to_root target' block head' bytes'
        ]
