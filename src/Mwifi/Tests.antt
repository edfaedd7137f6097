-- ===== src/Mwifi/Tests.antt =====
-- Runs of the mwifi component, and its theorems at concrete inputs.
use mathlib.Core.Path.{subst}
use pio_esp_mdf_example.Prelude.{
  ℕ, ◌+◌, ◌%◌, ◌<◌, ◌≡◌, ◌≢◌, refl, ap, Bool, true, false, ◌&&◌, List, [], ◌∷◌, ◌++◌, map, none,
  some, length, leb, replicate, ◌==◌, if◌then◌else◌, arith, Bool-cases, inl, inr,
}
use pio_esp_mdf_example.Mcommon.Err.{Err, mdf_ok, mdf_fail}
use pio_esp_mdf_example.Mwifi.Err.{MeshErr}
use pio_esp_mdf_example.Mwifi.Packet.{DataType, Head, Packet}
use pio_esp_mdf_example.Mwifi.Fragment.{Link, try_send, write_fragments, subcontract_write}
use pio_esp_mdf_example.Mwifi.Receive.{received, not_start, Reading, faulted, read_all}
use pio_esp_mdf_example.Mwifi.Receive.RoundTrip.{Completes}
use pio_esp_mdf_example.Mwifi.Receive.Loss.{read_recovers, restart_overruns}
use pio_esp_mdf_example.Mwifi.RootRead.{
  external, Inflated, inflated, buf_error, returned, root_read,
}
use pio_esp_mdf_example.Mwifi.Transmit.{TransmitApi, transmit_write}
use pio_esp_mdf_example.Mwifi.Transmit.Serve.{served, transmit_serves}
use pio_esp_mdf_example.Mwifi.Write.{
  Deflated, deflated, deflate_error, Node, address, pack, post, mwifi_write,
}
use pio_esp_mdf_example.Mwifi.Write.Unpack.{IsMiniz}
use pio_esp_mdf_example.Mwifi.Write.Deliver.{root_read-mwifi_write}
use pio_esp_mdf_example.Mwifi.NodeRead.{NodeReading, waiting, node_read_all}
use pio_esp_mdf_example.Mwifi.NodeRead.Duplicate.{duplicate_loses}
use pio_esp_mdf_example.Mwifi.Transmit.{addr_broadcast}
use pio_esp_mdf_example.Mwifi.RootWrite.{Root, mwifi_root_write}
use pio_esp_mdf_example.Mwifi.RootWrite.Reaches.{Delivered, attempt, unicast_reaches}

-- A compression that shortens the texts of one letter only: the arguments that the theorems leave open.
abbrev all_equal : ℕ → List ℕ → Bool
all_equal x [] = true
all_equal x (y ∷ ys) = y == x && all_equal x ys

abbrev run_length : List ℕ → Deflated
run_length [] = deflated (0 ∷ [])
run_length (x ∷ xs) = deflated (if all_equal x xs then 1 ∷ x ∷ length xs ∷ [] else 0 ∷ x ∷ xs)

abbrev in_room : ℕ → List ℕ → Inflated
in_room n bytes = if leb (length bytes) n then inflated bytes else buf_error

abbrev unrun : List ℕ → List ℕ
unrun [] = []
unrun (x ∷ []) = x ∷ []
unrun (x ∷ m ∷ rest) = x ∷ replicate m x

abbrev expand : ℕ → List ℕ → Inflated
expand n [] = buf_error
expand n (flag ∷ bytes) = in_room n (if flag == 1 then unrun bytes else bytes)

replicate_all : (x : ℕ) (xs : List ℕ) → all_equal x xs ≡ true → replicate (length xs) x ≡ xs
replicate_all x [] same = refl
replicate_all x (y ∷ ys) same = let rest = replicate_all x ys in ground (arith, same, rest)

abbrev bytes_of : Deflated → List ℕ
bytes_of (deflated c) = c
bytes_of (deflate_error e) = []

run_length_back :
    (bytes : List ℕ) (n : ℕ)
    → (0 < length (bytes_of (run_length bytes)))
      × (expand n (bytes_of (run_length bytes)) ≡ in_room n bytes)
run_length_back [] n = (omega arith, refl)
run_length_back (x ∷ xs) n = elim (Bool-cases (all_equal x xs)) [
  | inl same ↦ rw (same, replicate_all x xs same) (omega arith, refl)
  | inr differ ↦ rw differ (omega arith, refl)
]

never_fails : (bytes : List ℕ) (e : Err) → run_length bytes ≡ deflate_error e → e ≢ mdf_ok
never_fails [] e h = ground arith
never_fails (x ∷ xs) e h = ground arith

run_length-IsMiniz : IsMiniz run_length expand
run_length-IsMiniz = record {
  is_error = never_fails;
  some_bytes =
      λ bytes c packs. subst (λ bs. 0 < length bs) (ap bytes_of packs) (run_length_back bytes 0).0;
  back = λ bytes c packs n.
      subst (λ bs. expand n bs ≡ in_room n bytes) (ap bytes_of packs) (run_length_back bytes n).1;
}

abbrev type : DataType
type = record {
  compression = true;
  upgrade = false;
  communicate = 0;
  group = false;
  protocol = 1;
  custom = 5;
}

abbrev plain_type : DataType
plain_type = record type { compression = false }

abbrev head : Head
head = record {
  magic = 0;
  transmit_self = false;
  transmit_all = false;
  transmit_num = 0;
  total_size_low = 0;
  packet_seq = 0;
  total_size_hight = 0;
  compress_rate = 0;
  data_type = plain_type;
}

abbrev codes : MeshErr
codes = record { no_memory = 0x4001; discard = 0x4002; timeout = 0x4003; not_supported = 0x106 }

-- Every third call of esp_mesh_send finds no memory first.
abbrev link : Link
link = record {
  result = λ k. if k % 3 == 1 then 0x4001 else mdf_ok;
  locked = λ j. true;
  random = λ j. 100 + j;
  group = false;
}

abbrev node : Node
node = record {
  started = true;
  rootless = false;
  data_drop_enable = false;
  self_mac = 77;
  compress_memory = true;
  group_memory = true;
}

abbrev message : List ℕ
message = replicate 40 7

root_read-mwifi_write_example :
    root_read expand 41 head true true (external 64) (
      map received
        (mwifi_write run_length codes link node head none (some type) (some message) true).sent
      ++ (not_start ∷ []))
    ≡ returned (record { ret = mdf_ok; data_type = some type; bytes = message }) (not_start ∷ [])
unfolding mwifi_write address pack post subcontract_write write_fragments try_send
root_read-mwifi_write_example =
    root_read-mwifi_write run_length expand run_length-IsMiniz codes link node type message true
      head refl (external 64) 40 (not_start ∷ []) (omega arith) (omega arith) refl

-- A packet of a message of many.
abbrev part : ℕ → ℕ → List ℕ → Packet
part seq total bytes = record {
  head = record head { packet_seq = seq; total_size_low = total };
  payload = bytes;
}

abbrev middle : Reading
middle = record {
  bytes = replicate 1456 1;
  capacity = 3000;
  total = 3000;
  expect_seq = 1;
  head = head;
}

read_recovers_example : Completes 40 head message [] (
    read_all middle (
      received (part 2 3000 (5 ∷ []))
      ∷ (map received (part 1 3000 (6 ∷ []) ∷ [])
          ++ (map received (subcontract_write codes link head message).sent ++ []))))
unfolding subcontract_write write_fragments try_send
read_recovers_example =
    read_recovers codes link refl middle (part 2 3000 (5 ∷ [])) (part 1 3000 (6 ∷ []) ∷ []) head
      message [] refl (λ e. absurd (omega (arith, e))) (λ e. absurd (omega (arith, e)))
      (omega arith) (omega arith) (omega arith)
      (λ e. absurd (omega (arith, e)), omega arith, omega arith, tt) (omega arith) (omega arith)
      refl

restart_overruns_example :
    read_all middle (received (part 0 2 (5 ∷ 6 ∷ [])) ∷ received (part 1 9 (7 ∷ [])) ∷ []) ≡ faulted
restart_overruns_example =
    restart_overruns middle (part 0 2 (5 ∷ 6 ∷ [])) (part 1 9 (7 ∷ [])) [] refl
      (λ e. absurd (omega (arith, e))) refl refl (omega arith) (omega arith) (omega arith)

-- Two children, one of them with two nodes behind it.
abbrev mesh : TransmitApi
mesh = record {
  leaf = false;
  sta_ret = mdf_ok;
  sta = 10 ∷ 20 ∷ [];
  subnet_num_ret = λ child. mdf_ok;
  subnet_list_ret = λ child. mdf_ok;
  subnet = λ child. if child == 20 then 21 ∷ 22 ∷ [] else [];
  root = true;
  self_mac = 77;
  written = λ k. if k == 1 then mdf_fail else mdf_ok;
}

transmit_serves_example :
    served 22 (transmit_write mesh head (22 ∷ 20 ∷ 30 ∷ 22 ∷ []) message).1 ≡ 2
transmit_serves_example =
    transmit_serves mesh head (22 ∷ 20 ∷ 30 ∷ 22 ∷ []) message refl (λ e. absurd (omega (arith, e)))
      (λ e. absurd (omega (arith, e))) 22 (omega arith) (λ child. refl)

-- The second of three packets came, and comes again.
abbrev node_middle : NodeReading
node_middle = record {
  bytes = replicate 1457 1;
  capacity = 3000;
  total = 3000;
  expect = 3;
  head = head;
  magic = 0;
}

duplicate_loses_example :
    (r' : NodeReading) × (r'.bytes ≡ [])
    × (node_read_all node_middle
          (received (part 1 3000 (1 ∷ [])) ∷ map received (part 2 3000 (9 ∷ []) ∷ []))
        ≡ waiting r')
duplicate_loses_example =
    duplicate_loses node_middle (part 1 3000 (1 ∷ [])) (part 2 3000 (9 ∷ []) ∷ []) refl refl refl
      (omega arith) (omega arith) (λ e. absurd (omega (arith, e)), omega arith, omega arith, tt)

abbrev root : Root
root = record {
  node = node;
  routing_table = 77 ∷ 10 ∷ 20 ∷ [];
  addrs_memory = true;
  links = λ i. link;
  api = mesh;
}

abbrev root_head : Head
root_head = record head { transmit_self = true; data_type = plain_type }

unicast_reaches_example :
    Delivered (attempt run_length codes root root_head message) 0 message (10 ∷ 20 ∷ []) (
      mwifi_root_write run_length codes root head
        (some (addr_broadcast ∷ []))
        (some plain_type)
        (some message)
        true)
unfolding pack
unicast_reaches_example =
    unicast_reaches run_length codes root plain_type (addr_broadcast ∷ []) (10 ∷ 20 ∷ []) true refl
      refl (inr ([], 10 ∷ 20 ∷ [], refl, refl, refl)) (omega arith) (omega arith) head root_head
      message message refl refl (omega arith) (λ e. absurd (omega (arith, e))) (omega arith)
      (omega arith) refl
