-- ===== src/Mespnow/Peer.antt =====
-- mespnow_add_peer and mespnow_del_peer of esp-mdf/components/mespnow/mespnow.c.
use pio_esp_mdf_example.Prelude.{
  ℕ, Bool, true, false, not, List, [], ◌∷◌, Option, none, some, ◌≡◌, arith, if◌then◌else◌, ◌==◌,
}
use pio_esp_mdf_example.Mcommon.Err.{Err, mdf_ok, mdf_err_invalid_arg}

-- What ESP-NOW and the Wi-Fi driver answer: esp_now_is_peer_exist, esp_now_del_peer,
-- esp_wifi_get_channel (result and channel) and esp_now_add_peer.
pub record PeerApi : Type 0 where
  pub exists : Bool
  pub deleted : Err
  pub got_channel : Err
  pub channel : ℕ
  pub added : Err

-- esp_now_peer_info_t, as far as it is set.
pub record PeerInfo : Type 0 where
  pub channel : ℕ
  pub lmk : Option (List ℕ)
  pub ifidx : ℕ
  pub peer_addr : List ℕ

-- The calls that change the peer list.
pub data PeerOp : Type 0 where
  del_peer : List ℕ → PeerOp
  add_peer : PeerInfo → PeerOp

pub mespnow_del_peer : PeerApi → Option (List ℕ) → Err × List PeerOp
mespnow_del_peer api none = (mdf_err_invalid_arg, [])
mespnow_del_peer api (some addr) =
    if not api.exists
    then (mdf_ok, [])
    else if not (api.deleted == mdf_ok)
    then (api.deleted, del_peer addr ∷ [])
    else (mdf_ok, del_peer addr ∷ [])

unfoldable pub mespnow_add_peer :
    PeerApi → ℕ → Option (List ℕ) → Option (List ℕ) → Err × List PeerOp
mespnow_add_peer api ifx none lmk = (mdf_err_invalid_arg, [])
mespnow_add_peer api ifx (some addr) lmk =
    let peer : PeerInfo = record {
      channel = api.channel;
      lmk = lmk;
      ifidx = ifx;
      peer_addr = addr;
    } in
    if api.exists
    then if not (api.deleted == mdf_ok)
      then (api.deleted, del_peer addr ∷ [])
      else (mdf_ok, del_peer addr ∷ [])
    else if not (api.got_channel == mdf_ok)
    then (api.got_channel, [])
    else if not (api.added == mdf_ok)
    then (api.added, add_peer peer ∷ [])
    else (mdf_ok, add_peer peer ∷ [])

-- Whether the peer is in the list after calls that succeed.
abbrev pub is_listed : Bool → List PeerOp → Bool
is_listed before [] = before
is_listed before (del_peer addr ∷ ops) = is_listed false ops
is_listed before (add_peer info ∷ ops) = is_listed true ops

-- When mespnow_add_peer returns MDF_OK the address is a peer exactly if it was none before: a call
-- for an address that is a peer already removes it, although the function is to add it.
add_peer_toggles :
    (api : PeerApi) (ifx : ℕ) (addr : List ℕ) (lmk : Option (List ℕ))
    → (mespnow_add_peer api ifx (some addr) lmk).0 ≡ mdf_ok
    → is_listed api.exists (mespnow_add_peer api ifx (some addr) lmk).1 ≡ not api.exists
unfolding mespnow_add_peer
add_peer_toggles api ifx addr lmk ok = ground arith

-- When mespnow_del_peer returns MDF_OK for an address, the address is no peer.
pub del_peer_removes :
    (api : PeerApi) (addr : List ℕ)
    → (mespnow_del_peer api (some addr)).0 ≡ mdf_ok
    → is_listed api.exists (mespnow_del_peer api (some addr)).1 ≡ false
unfolding mespnow_del_peer
del_peer_removes api addr ok = ground arith
