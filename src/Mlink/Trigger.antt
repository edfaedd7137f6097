-- ===== src/Mlink/Trigger.antt =====
-- The triggers that link the state of one device to others: mlink_trigger_handle and
-- mlink_trigger_is_exist of esp-mdf/components/mlink/mlink_trigger.c. An `int` is its pattern of 32
-- bits.
pub mod Repeat
pub mod Parse
pub mod Listing
use pio_esp_mdf_example.Prelude.{
  ℕ, ◌+◌, ◌-◌, ◌%◌, ◌^◌, Bool, true, false, not, ◌&&◌, ◌||◌, List, [], ◌∷◌, ◌++◌, Option, none,
  some, leb, ltb, ◌==◌, if◌then◌else◌,
}
use pio_esp_mdf_example.Mcommon.Err.{Err, mdf_ok, mdf_err_not_init, is_negative}

-- Addition of 2 ^ 31 turns the order of the signed numbers into that of the patterns.
abbrev pub sign_flip : ℕ → ℕ
sign_flip a = (a + 2 ^ 31) % 2 ^ 32

abbrev pub signed_le : ℕ → ℕ → Bool
signed_le a b = leb (sign_flip a) (sign_flip b)

abbrev pub signed_lt : ℕ → ℕ → Bool
signed_lt a b = ltb (sign_flip a) (sign_flip b)

abbrev pub minus : ℕ → ℕ → ℕ
minus a b = (a + 2 ^ 32 - b) % 2 ^ 32

abbrev pub abs : ℕ → ℕ
abs a = if leb (2 ^ 31) a then minus 0 a else a

-- A bit of the flags with the number that belongs to it
pub record Condition : Type 0 where
  pub flag : Bool
  pub bound : ℕ

-- trigger_compare_t
pub record Compare : Type 0 where
  pub value : ℕ
  pub equal : Condition
  pub unequal : Condition
  pub greater_than : Condition
  pub less_than : Condition
  pub variation : Condition
  pub rising : Condition
  pub falling : Condition

pub data Content : Type 0 where
  text : List ℕ → Content
  set_status : ℕ → ℕ → Content

-- The parts of mlink_trigger_t that mlink_trigger_handle uses; an address is its number.
pub record Trigger : Type 0 where
  pub cid : ℕ
  pub sync : Bool
  pub param : ℕ
  pub group : Bool
  pub compare : Compare
  pub addrs : List ℕ
  pub content : Content

-- mlink_communicate_t
pub data Communicate : Type 0 where
  communicate_none communicate_mesh communicate_espnow : Communicate

pub data Send : Type 0 where
  mesh : ℕ → Bool → Content → Send
  espnow : List ℕ → Bool → Content → Send

-- What mlink_device_get_value returns, with the value if it writes one, and what the calls that send
-- return.
pub record TriggerApi : Type 0 where
  pub get_value : ℕ → Err × Option ℕ
  pub mwifi_write : ℕ → Err
  pub espnow_write : List ℕ → Err

-- `b ? 1 : 0`
abbrev pub as_int : Bool → ℕ
as_int b = if b then 1 else 0

-- Whether the device's value meets the conditions. In the conditions on rising and falling,
-- `variation` is the outcome of the condition before, not a bound.
unfoldable pub meets : Compare → ℕ → Bool
meets c v =
    let variation = not c.variation.flag || signed_le c.variation.bound (abs (minus v c.value)) in
    (not c.equal.flag || c.equal.bound == v)
    && (not c.unequal.flag || not (c.unequal.bound == v))
    && (not c.greater_than.flag || signed_lt c.greater_than.bound v)
    && (not c.less_than.flag || signed_lt v c.less_than.bound)
    && variation
    && (not c.rising.flag || signed_le (as_int variation) (minus v c.value))
    && (not c.falling.flag || signed_le (as_int variation) (minus c.value v))

-- The loop over the addresses of a trigger: `ret` is that of the last call.
unfoldable pub send_mesh : TriggerApi → List ℕ → Bool → Content → Err → Err × List Send
send_mesh api [] group content ret = (ret, [])
send_mesh api (a ∷ addrs) group content ret =
    let (last, sends) = send_mesh api addrs group content (api.mwifi_write a) in
    (last, mesh a group content ∷ sends)

unfoldable pub send_content : TriggerApi → Communicate → Trigger → Content → Err → Err × List Send
send_content api communicate_none t content ret = (ret, [])
send_content api communicate_mesh t content ret = send_mesh api t.addrs t.group content ret
send_content api communicate_espnow t content ret =
    (api.espnow_write t.addrs, espnow t.addrs t.group content ∷ [])

pub record Handled : Type 0 where
  pub ret : Err
  pub triggers : List Trigger
  pub sends : List Send

-- The loop of mlink_trigger_handle; `value` keeps what was read last.
unfoldable pub handle_all : TriggerApi → Communicate → ℕ → List Trigger → Handled
handle_all api communicate value [] = record { ret = mdf_ok; triggers = []; sends = [] }
handle_all api communicate value (t ∷ ts) =
    let (ret, read) = api.get_value t.cid in
    let v : ℕ = elim read [ none ↦ value | some n ↦ n ] in
    let kept = handle_all api communicate value ts in
    let rest = handle_all api communicate v ts in
    let t' : Trigger = record t { compare = record (t.compare) { value = v } } in
    let (sent, sends) =
      send_content api communicate t (if t.sync then set_status t.param v else t.content) ret in
    if is_negative ret
    then record kept { triggers = t ∷ kept.triggers }
    else if t.sync && t.compare.value == v
    then record rest { triggers = t ∷ rest.triggers }
    else if not (meets t.compare v)
    then record rest { triggers = t' ∷ rest.triggers }
    else if not (sent == mdf_ok)
    then record { ret = sent; triggers = t' ∷ ts; sends = sends }
    else record rest { triggers = t' ∷ rest.triggers; sends = sends ++ rest.sends }

-- mlink_trigger_handle; the list before mlink_trigger_init is `none`.
unfoldable pub trigger_handle : TriggerApi → Communicate → Option (List Trigger) → Handled
trigger_handle api communicate none = record { ret = mdf_err_not_init; triggers = []; sends = [] }
trigger_handle api communicate (some triggers) = handle_all api communicate (2 ^ 32 - 1) triggers

-- mlink_trigger_is_exist
unfoldable pub trigger_is_exist : Option (List Trigger) → Bool
trigger_is_exist none = false
trigger_is_exist (some []) = false
trigger_is_exist (some (t ∷ ts)) = true
