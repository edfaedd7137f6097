-- ===== src/Mespnow/Frame.antt =====
-- mespnow_head_data_t of esp-mdf/components/mespnow/mespnow.c: the packed header of 12 bytes, with
-- little-endian fields as on the ESP32, before the payload.
use pio_esp_mdf_example.Prelude.{
  ℕ, ◌+◌, ◌*◌, ◌/◌, ◌%◌, ◌≡◌, List, ◌∷◌, Option, none, some, arith, ap,
}

-- `payload` is what stands behind the header.
pub record Frame : Type 0 where
  pub oui_0 : ℕ
  pub oui_1 : ℕ
  pub pipe : ℕ
  pub crc : ℕ
  pub seq : ℕ
  pub size : ℕ
  pub total_size : ℕ
  pub magic : ℕ
  pub payload : List ℕ

-- sizeof(mespnow_head_data_t)
abbrev pub head_len : ℕ
head_len = 12

-- The bytes of a frame in memory.
unfoldable pub encode : Frame → List ℕ
encode f =
    f.oui_0
    ∷ f.oui_1
    ∷ f.pipe
    ∷ f.crc
    ∷ f.seq
    ∷ f.size
    ∷ (f.total_size % 256)
    ∷ (f.total_size / 256)
    ∷ (f.magic % 256)
    ∷ (f.magic / 256 % 256)
    ∷ (f.magic / 65536 % 256)
    ∷ (f.magic / 16777216)
    ∷ f.payload

-- The cast `(mespnow_head_data_t *)data`; `none` where fewer than 12 bytes are there.
unfoldable pub decode : List ℕ → Option Frame
decode (o ∷ o' ∷ p ∷ c ∷ s ∷ n ∷ t ∷ t' ∷ m ∷ m' ∷ m'' ∷ m''' ∷ payload) = some (record {
  oui_0 = o;
  oui_1 = o';
  pipe = p;
  crc = c;
  seq = s;
  size = n;
  total_size = t + 256 * t';
  magic = m + 256 * m' + 65536 * m'' + 16777216 * m''';
  payload = payload;
})
decode short = none

-- The cast reads back what the sender wrote.
pub decode-encode : (f : Frame) → decode (encode f) ≡ some f
unfolding decode encode
decode-encode f = ap some (ground arith)
