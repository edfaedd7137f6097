-- ===== src/Mwifi/Transmit.antt =====
-- mwifi_transmit_write of esp-mdf/components/mwifi/mwifi.c: a message for many devices goes to the
-- children of the node, with the list of the devices behind each.
pub mod Serve
use pio_esp_mdf_example.Prelude.{
  ℕ, zero, suc, ◌+◌, ◌*◌, ◌/◌, ◌%◌, ◌^◌, Bool, true, false, not, ◌&&◌, ◌||◌, List, [], ◌∷◌, ◌++◌,
  length, get_or, ◌==◌, if◌then◌else◌,
}
use pio_esp_mdf_example.Mcommon.Err.{Err, mdf_ok}
use pio_esp_mdf_example.Mwifi.Packet.{Head}

-- A MAC address of 6 bytes, as a number.
abbrev pub Addr : Type 0
Addr = ℕ

-- MWIFI_ADDR_ANY and MWIFI_ADDR_BROADCAST
abbrev pub addr_any : Addr
addr_any = 0xffff_ffff_ffff

abbrev pub addr_broadcast : Addr
addr_broadcast = 0xffff_ffff_fffe

-- The bytes of addresses, one after the other
abbrev pub addr_bytes : List Addr → List ℕ
addr_bytes [] = []
addr_bytes (a ∷ addrs) =
    (a / 2 ^ 40 % 256)
    ∷ (a / 2 ^ 32 % 256)
    ∷ (a / 2 ^ 24 % 256)
    ∷ (a / 2 ^ 16 % 256)
    ∷ (a / 2 ^ 8 % 256)
    ∷ (a % 256)
    ∷ addr_bytes addrs

-- addrs_remove: whether the address was there, and the list without its first occurrence.
unfoldable pub addrs_remove : List Addr → Addr → Bool × List Addr
addrs_remove [] addr = (false, [])
addrs_remove (a ∷ addrs) addr =
    let (found, rest) = addrs_remove addrs addr in
    if a == addr then (true, addrs) else (found, a ∷ rest)

-- What the system answers: whether the node is a leaf, the children of its access point if it has
-- them, for each child the result of asking for the number and for the list of the nodes behind it,
-- the nodes, and what mwifi_subcontract_write returns for its k-th call.
pub record TransmitApi : Type 0 where
  pub leaf : Bool
  pub sta_ret : Err
  pub sta : List Addr
  pub subnet_num_ret : Addr → Err
  pub subnet_list_ret : Addr → Err
  pub subnet : Addr → List Addr
  pub root : Bool
  pub self_mac : Addr
  pub written : ℕ → Err

-- A call of mwifi_subcontract_write. `forward` are the addresses in front of the message, and
-- `direct` is whether the flags are MESH_DATA_P2P and MESH_DATA_DROP.
pub record Call : Type 0 where
  pub dest : Addr
  pub head : Head
  pub forward : List Addr
  pub message : List ℕ
  pub direct : Bool

-- The loop over the nodes behind a child: those on the list, in their order, and the list without
-- them.
unfoldable pub take_subnet : List Addr → List Addr → List Addr × List Addr
take_subnet [] addrs = ([], addrs)
take_subnet (node ∷ nodes) addrs =
    let (found, rest) = addrs_remove addrs node in
    let (taken, left) = take_subnet nodes rest in
    if length addrs == 0 then ([], addrs) else (if found then node ∷ taken else taken, left)

pub record Transmitted : Type 0 where
  pub ret : Err
  pub addrs : List Addr
  pub head : Head
  pub calls : List Call

-- What one child is asked to forward: the head with its fields, the addresses, and the list that is
-- left.
unfoldable pub split_child : TransmitApi → Head → List Addr → Addr → Head × List Addr × List Addr
split_child api head addrs child =
    let (self, rest) = addrs_remove addrs child in
    let (taken, left) = take_subnet (api.subnet child) rest in
    let head' = λ (n : ℕ).
      let h : Head = record head { transmit_self = self; transmit_num = n % 1024 } in h in
    if head.transmit_all
    then (head, [], addrs)
    else if length (api.subnet child) == 0
    then (head' 0, [], rest)
    else if api.subnet_list_ret child == mdf_ok
    then (head' (length taken), taken, left)
    else (head' 0, [], rest)

-- The loop over the children; `k` counts the calls, and `ret` is the last result. A child whose number
-- of nodes cannot be asked for ends the loop.
unfoldable pub to_children :
    TransmitApi → List ℕ → List Addr → ℕ → Err → Head → List Addr → Transmitted
to_children api message [] k ret head addrs = record {
  ret = ret;
  addrs = addrs;
  head = head;
  calls = [];
}
to_children api message (child ∷ children) k ret head addrs =
    let (head', forward, left) = split_child api head addrs child in
    let (self, rest) = addrs_remove addrs child in
    let asked = if head.transmit_all then ret else api.subnet_num_ret child in
    let listed =
      if head.transmit_all || length (api.subnet child) == 0
      then asked
      else api.subnet_list_ret child in
    let idle = to_children api message children k listed head' left in
    let rest_calls = to_children api message children (k + 1) mdf_ok head' left in
    let call : Call = record {
      dest = child;
      head = head';
      forward = forward;
      message = message;
      direct = false;
    } in
    let lost : Head = record head { transmit_self = self; transmit_num = 0 } in
    if length addrs == 0
    then record { ret = ret; addrs = addrs; head = head; calls = [] }
    else if not head.transmit_all && not (api.subnet_num_ret child == mdf_ok)
    then record { ret = asked; addrs = rest; head = lost; calls = [] }
    else if not (head'.transmit_self || head'.transmit_all) && head'.transmit_num == 0
    then idle
    else if not (api.written k == mdf_ok)
    then record { ret = api.written k; addrs = left; head = head'; calls = call ∷ [] }
    else record rest_calls { calls = call ∷ rest_calls.calls }

-- The loop over the devices that are left: each gets the message itself.
unfoldable pub to_devices : TransmitApi → List ℕ → Head → List Addr → ℕ → Err → Err × List Call
to_devices api message head [] k ret = (ret, [])
to_devices api message head (a ∷ addrs) k ret =
    let (last, calls) = to_devices api message head addrs (k + 1) (api.written k) in
    let call : Call = record {
      dest = a;
      head = head;
      forward = [];
      message = message;
      direct = true;
    } in
    (last, call ∷ calls)

abbrev pub set_first : List Addr → Addr → List Addr
set_first [] a = []
set_first (x ∷ xs) a = a ∷ xs

unfoldable pub transmit_write : TransmitApi → Head → List Addr → List ℕ → Err × List Call
transmit_write api head addrs message =
    let first = get_or addrs 0 0 in
    let all = first == addr_any || first == addr_broadcast || head.transmit_all in
    let children = if api.leaf || not (api.sta_ret == mdf_ok) then [] else api.sta in
    let t = to_children api message children 0 mdf_ok (record head { transmit_all = all }) addrs in
    let own = get_or t.addrs 0 0 == addr_any && t.head.transmit_all && api.root in
    let left = if own then set_first t.addrs api.self_mac else t.addrs in
    let head' : Head = record (t.head) {
      transmit_self = true;
      transmit_num = 0;
      transmit_all = t.head.transmit_all && not own;
    } in
    let (ret, direct) = to_devices api message head' left (length t.calls) t.ret in
    if t.head.transmit_all && not own then (t.ret, t.calls) else (ret, t.calls ++ direct)
