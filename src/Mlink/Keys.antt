-- ===== src/Mlink/Keys.antt =====
-- The words that the code writes out: the keys of the requests and of the stored information, as
-- lists of characters. esp-mdf/components/mlink/mlink_handle.c and mlink_trigger.c.
use pio_esp_mdf_example.Prelude.{ℕ, List, [], ◌∷◌}

-- "request"
abbrev pub request_key : List ℕ
request_key = 0x72 ∷ 0x65 ∷ 0x71 ∷ 0x75 ∷ 0x65 ∷ 0x73 ∷ 0x74 ∷ []

-- "status_msg"
abbrev pub status_msg_key : List ℕ
status_msg_key = 0x73 ∷ 0x74 ∷ 0x61 ∷ 0x74 ∷ 0x75 ∷ 0x73 ∷ 0x5f ∷ 0x6d ∷ 0x73 ∷ 0x67 ∷ []

-- "status_code"
abbrev pub status_code_key : List ℕ
status_code_key = 0x73 ∷ 0x74 ∷ 0x61 ∷ 0x74 ∷ 0x75 ∷ 0x73 ∷ 0x5f ∷ 0x63 ∷ 0x6f ∷ 0x64 ∷ 0x65 ∷ []

-- "name"
abbrev pub name_key : List ℕ
name_key = 0x6e ∷ 0x61 ∷ 0x6d ∷ 0x65 ∷ []

-- "trigger_cid"
abbrev pub trigger_cid_key : List ℕ
trigger_cid_key = 0x74 ∷ 0x72 ∷ 0x69 ∷ 0x67 ∷ 0x67 ∷ 0x65 ∷ 0x72 ∷ 0x5f ∷ 0x63 ∷ 0x69 ∷ 0x64 ∷ []

-- "execute_mac"
abbrev pub execute_mac_key : List ℕ
execute_mac_key = 0x65 ∷ 0x78 ∷ 0x65 ∷ 0x63 ∷ 0x75 ∷ 0x74 ∷ 0x65 ∷ 0x5f ∷ 0x6d ∷ 0x61 ∷ 0x63 ∷ []

-- "trigger_compare"
abbrev pub trigger_compare_key : List ℕ
trigger_compare_key =
    0x74 ∷ 0x72 ∷ 0x69 ∷ 0x67 ∷ 0x67 ∷ 0x65 ∷ 0x72 ∷ 0x5f ∷ 0x63 ∷ 0x6f ∷ 0x6d ∷ 0x70 ∷ 0x61 ∷ 0x72
    ∷ 0x65 ∷ []

-- "=="
abbrev pub equal_key : List ℕ
equal_key = 0x3d ∷ 0x3d ∷ []

-- "!="
abbrev pub unequal_key : List ℕ
unequal_key = 0x21 ∷ 0x3d ∷ []

-- ">"
abbrev pub greater_than_key : List ℕ
greater_than_key = 0x3e ∷ []

-- "<"
abbrev pub less_than_key : List ℕ
less_than_key = 0x3c ∷ []

-- "~"
abbrev pub variation_key : List ℕ
variation_key = 0x7e ∷ []

-- "/"
abbrev pub rising_key : List ℕ
rising_key = 0x2f ∷ []

-- "\"
abbrev pub falling_key : List ℕ
falling_key = 0x5c ∷ []

-- "trigger_content"
abbrev pub trigger_content_key : List ℕ
trigger_content_key =
    0x74 ∷ 0x72 ∷ 0x69 ∷ 0x67 ∷ 0x67 ∷ 0x65 ∷ 0x72 ∷ 0x5f ∷ 0x63 ∷ 0x6f ∷ 0x6e ∷ 0x74 ∷ 0x65 ∷ 0x6e
    ∷ 0x74 ∷ []

-- "execute_cid"
abbrev pub execute_cid_key : List ℕ
execute_cid_key = 0x65 ∷ 0x78 ∷ 0x65 ∷ 0x63 ∷ 0x75 ∷ 0x74 ∷ 0x65 ∷ 0x5f ∷ 0x63 ∷ 0x69 ∷ 0x64 ∷ []

-- "execute_content"
abbrev pub execute_content_key : List ℕ
execute_content_key =
    0x65 ∷ 0x78 ∷ 0x65 ∷ 0x63 ∷ 0x75 ∷ 0x74 ∷ 0x65 ∷ 0x5f ∷ 0x63 ∷ 0x6f ∷ 0x6e ∷ 0x74 ∷ 0x65 ∷ 0x6e
    ∷ 0x74 ∷ []

-- "communicate_type"
abbrev pub communicate_type_key : List ℕ
communicate_type_key =
    0x63 ∷ 0x6f ∷ 0x6d ∷ 0x6d ∷ 0x75 ∷ 0x6e ∷ 0x69 ∷ 0x63 ∷ 0x61 ∷ 0x74 ∷ 0x65 ∷ 0x5f ∷ 0x74 ∷ 0x79
    ∷ 0x70 ∷ 0x65 ∷ []

-- "sync"
abbrev pub sync_word : List ℕ
sync_word = 0x73 ∷ 0x79 ∷ 0x6e ∷ 0x63 ∷ []

-- "linkage"
abbrev pub linkage_word : List ℕ
linkage_word = 0x6c ∷ 0x69 ∷ 0x6e ∷ 0x6b ∷ 0x61 ∷ 0x67 ∷ 0x65 ∷ []

-- "group"
abbrev pub group_word : List ℕ
group_word = 0x67 ∷ 0x72 ∷ 0x6f ∷ 0x75 ∷ 0x70 ∷ []

-- "events"
abbrev pub events_key : List ℕ
events_key = 0x65 ∷ 0x76 ∷ 0x65 ∷ 0x6e ∷ 0x74 ∷ 0x73 ∷ []

-- "MLINK_TRIGGER"
abbrev pub trigger_store_key : List ℕ
trigger_store_key =
    0x4d ∷ 0x4c ∷ 0x49 ∷ 0x4e ∷ 0x4b ∷ 0x5f ∷ 0x54 ∷ 0x52 ∷ 0x49 ∷ 0x47 ∷ 0x47 ∷ 0x45 ∷ 0x52 ∷ []

-- "trigger"
abbrev pub trigger_key : List ℕ
trigger_key = 0x74 ∷ 0x72 ∷ 0x69 ∷ 0x67 ∷ 0x67 ∷ 0x65 ∷ 0x72 ∷ []

-- "[]"
abbrev pub array_key : List ℕ
array_key = 0x5b ∷ 0x5d ∷ []

-- "ML_NAME"
abbrev pub device_name_key : List ℕ
device_name_key = 0x4d ∷ 0x4c ∷ 0x5f ∷ 0x4e ∷ 0x41 ∷ 0x4d ∷ 0x45 ∷ []

-- "ML_POSITION"
abbrev pub device_position_key : List ℕ
device_position_key =
    0x4d ∷ 0x4c ∷ 0x5f ∷ 0x50 ∷ 0x4f ∷ 0x53 ∷ 0x49 ∷ 0x54 ∷ 0x49 ∷ 0x4f ∷ 0x4e ∷ []

-- "cids"
abbrev pub cids_key : List ℕ
cids_key = 0x63 ∷ 0x69 ∷ 0x64 ∷ 0x73 ∷ []

-- "cid"
abbrev pub cid_key : List ℕ
cid_key = 0x63 ∷ 0x69 ∷ 0x64 ∷ []

-- "value"
abbrev pub value_key : List ℕ
value_key = 0x76 ∷ 0x61 ∷ 0x6c ∷ 0x75 ∷ 0x65 ∷ []

-- "characteristics"
abbrev pub characteristics_key : List ℕ
characteristics_key =
    0x63 ∷ 0x68 ∷ 0x61 ∷ 0x72 ∷ 0x61 ∷ 0x63 ∷ 0x74 ∷ 0x65 ∷ 0x72 ∷ 0x69 ∷ 0x73 ∷ 0x74 ∷ 0x69 ∷ 0x63
    ∷ 0x73 ∷ []

-- "position"
abbrev pub position_key : List ℕ
position_key = 0x70 ∷ 0x6f ∷ 0x73 ∷ 0x69 ∷ 0x74 ∷ 0x69 ∷ 0x6f ∷ 0x6e ∷ []
