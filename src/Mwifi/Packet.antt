-- ===== src/Mwifi/Packet.antt =====
-- The packets of esp-mdf/components/mwifi/mwifi.c: mwifi_data_head_t, which travels as an option of the
-- mesh packet, and the payload.
use pio_esp_mdf_example.Prelude.{ℕ, ◌+◌, ◌*◌, ◌/◌, ◌%◌, Bool, List}

-- MWIFI_PAYLOAD_LEN
abbrev pub payload_len : ℕ
payload_len = 1456

-- MWIFI_COMMUNICATE_UNICAST, MWIFI_COMMUNICATE_MULTICAST and MWIFI_COMMUNICATE_BROADCAST
abbrev pub communicate_unicast : ℕ
communicate_unicast = 0

abbrev pub communicate_multicast : ℕ
communicate_multicast = 1

abbrev pub communicate_broadcast : ℕ
communicate_broadcast = 2

-- mwifi_data_type_t
pub record DataType : Type 0 where
  pub compression : Bool
  pub upgrade : Bool
  pub communicate : ℕ
  pub group : Bool
  pub protocol : ℕ
  pub custom : ℕ

-- mwifi_data_head_t
pub record Head : Type 0 where
  pub magic : ℕ
  pub transmit_self : Bool
  pub transmit_all : Bool
  pub transmit_num : ℕ
  pub total_size_low : ℕ
  pub packet_seq : ℕ
  pub total_size_hight : ℕ
  pub compress_rate : ℕ
  pub data_type : DataType

-- The total size in the fields of 12 bits and 1 bit, and back.
abbrev pub with_total_size : Head → ℕ → Head
with_total_size head size = record head {
  total_size_low = size % 4096;
  total_size_hight = size / 4096 % 2;
}

abbrev pub total_size : Head → ℕ
total_size head = head.total_size_hight * 4096 + head.total_size_low

pub record Packet : Type 0 where
  pub head : Head
  pub payload : List ℕ
