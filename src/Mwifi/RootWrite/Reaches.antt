-- ===== src/Mwifi/RootWrite/Reaches.antt =====
-- The devices that mwifi_root_write sends to.
use pio_esp_mdf_example.Prelude.{
  ℕ, zero, suc, ◌+◌, ◌<◌, ◌≤◌, ◌≡◌, ◌≢◌, refl, sym, ap, ◌∙◌, ◌⊎◌, inl, inr, Bool, true, false, not,
  ◌&&◌, ◌||◌, List, [], ◌∷◌, ◌++◌, map, some, length, ltb, leb, get_or, ◌==◌, if◌then◌else◌, arith,
  Bool-cases,
}
use pio_esp_mdf_example.Mcommon.Err.{Err, mdf_ok, mdf_err_no_mem}
use pio_esp_mdf_example.Mwifi.Err.{MeshErr}
use pio_esp_mdf_example.Mwifi.Packet.{DataType, Head, communicate_unicast, communicate_broadcast}
use pio_esp_mdf_example.Mwifi.Fragment.{Link, subcontract_write}
use pio_esp_mdf_example.Mwifi.Transmit.{Addr, addr_any, addr_broadcast, addrs_remove}
use pio_esp_mdf_example.Mwifi.Write.{Deflated, Posted, packed, addr_none, pack}
use pio_esp_mdf_example.Mwifi.RootWrite.Meant.{IsMeant, IsWithout-remove}
use pio_esp_mdf_example.Mwifi.RootWrite.{
  RootWritten, Root, from_root, each_device, targets, send_packed, mwifi_root_write,
}

abbrev pub copies : RootWritten → List (Addr × List ℕ)
copies w = map (λ (p : Posted). (p.dest, p.message)) w.posts

abbrev pub to_each : List ℕ → List Addr → List (Addr × List ℕ)
to_each bytes list = map (λ (a : Addr). (a, bytes)) list

-- From the `i`-th sending on, every device was sent the message; or a sending failed, its error was
-- returned, and the devices behind it were sent nothing.
abbrev pub Delivered : (ℕ → Err) → ℕ → List ℕ → List Addr → RootWritten → Type 0
Delivered attempt i bytes list w =
    ((w.ret ≡ mdf_ok)
      × (copies w ≡ to_each bytes list)
      × ((k : ℕ) → k < length list → attempt (i + k) ≡ mdf_ok))
    ⊎ ((before : List Addr) × (a : Addr) × (behind : List Addr) × (list ≡ before ++ (a ∷ behind))
        × (w.ret ≢ mdf_ok)
        × (attempt (i + length before) ≡ w.ret)
        × ((k : ℕ) → k < length before → attempt (i + k) ≡ mdf_ok)
        × (copies w ≡ to_each bytes (before ++ (a ∷ []))))

at_suc :
    (attempt : ℕ → Err) (i : ℕ) (list : List Addr)
    → attempt i ≡ mdf_ok
    → ((k : ℕ) → k < length list → attempt (i + 1 + k) ≡ mdf_ok)
    → (k : ℕ) → k < suc (length list)
    → attempt (i + k) ≡ mdf_ok
at_suc attempt i list ok rest zero h = ap attempt (let e : i + 0 ≡ i = omega arith in e) ∙ ok
at_suc attempt i list ok rest (suc k) h =
    ap attempt (let e : i + suc k ≡ i + 1 + k = omega arith in e) ∙ rest k (omega (arith, h))

Delivered-suc :
    (attempt : ℕ → Err) (i : ℕ) (bytes : List ℕ) (list : List Addr) (p : Posted) (w : RootWritten)
    → attempt i ≡ mdf_ok
    → p.message ≡ bytes
    → Delivered attempt (i + 1) bytes list w
    → Delivered attempt i bytes (p.dest ∷ list) (record w { posts = p ∷ w.posts })
Delivered-suc attempt i bytes list p w ok same (inl (ret, sent, each)) = inl (
  ret,
  ap (λ m. (p.dest, m) ∷ copies w) same ∙ ap (λ r. (p.dest, bytes) ∷ r) sent,
  at_suc attempt i list ok each,
)
Delivered-suc attempt i bytes list p w ok same
      (inr (before, a, behind, e, failed, last, each, sent)) =
    inr (
      p.dest ∷ before,
      a,
      behind,
      ap (λ r. p.dest ∷ r) e,
      failed,
      ap attempt (let n : i + suc (length before) ≡ i + 1 + length before = omega arith in n)
          ∙ last,
      at_suc attempt i before ok each,
      ap (λ m. (p.dest, m) ∷ copies w) same ∙ ap (λ r. (p.dest, bytes) ∷ r) sent,
    )

module _ (compress : List ℕ → Deflated) (codes : MeshErr) (root : Root) where
  -- The result of sending the message to the `i`-th device
  abbrev pub attempt : Head → List ℕ → ℕ → Err
  attempt head bytes i =
      let link : Link = record (root.links i) { group = false } in
      (subcontract_write codes link head bytes).ret

  each_device-Delivered :
      (block : Bool) (head : Head) (bytes : List ℕ) (i : ℕ) (ret : Err) (list : List Addr)
      → ret ≡ mdf_ok
      → Delivered
          (attempt head bytes)
          i
          bytes
          list
          (each_device compress codes root block head bytes i ret list)
  unfolding each_device
  each_device-Delivered block head bytes i ret [] ok =
      inl (ok, refl, λ k h. absurd (omega (arith, h)))
  each_device-Delivered block head bytes i ret (a ∷ list) ok =
      let out = attempt head bytes i in
      elim (Bool-cases (out == mdf_ok)) [
        | inl sent ↦
            let good : out ≡ mdf_ok = ground arith in
            rw sent (
              Delivered-suc (attempt head bytes) i bytes list
                (from_root compress codes root block head bytes a)
                (each_device compress codes root block head bytes (i + 1) out list) good refl
                (each_device-Delivered block head bytes (i + 1) out list good))
        | inr failed ↦
            let bad : out ≢ mdf_ok = ground arith in
            rw failed (
              inr (
                [],
                a,
                list,
                refl,
                bad,
                ap (attempt head bytes) (let e : i + 0 ≡ i = omega arith in e),
                λ k h. absurd (omega (arith, h)),
                refl,
              ))
      ]

  IsMeant-targets :
      (addrs list : List Addr) (but_root any : Bool)
      → IsMeant but_root any root.node.self_mac root.routing_table addrs list
      → (if but_root
          then (addrs_remove root.routing_table root.node.self_mac).1
          else if any
          then root.routing_table
          else addrs)
        ≡ list
  IsMeant-targets addrs list true any h =
      IsWithout-remove root.node.self_mac root.routing_table list h
  IsMeant-targets addrs list false true h = sym h
  IsMeant-targets addrs list false false h = sym h

  some_device :
      (block : Bool) (head : Head) (bytes : List ℕ) (ret : Err) (list : List Addr)
      → 0 < length list
      → Delivered
          (attempt head bytes)
          0
          bytes
          list
          (each_device compress codes root block head bytes 0 ret list)
  unfolding each_device
  some_device block head bytes ret [] h = absurd (omega (arith, h))
  some_device block head bytes ret (a ∷ list) h =
      each_device-Delivered block head bytes 0 mdf_ok (a ∷ list) refl

  module _ (t : DataType) (addrs list : List Addr) (block : Bool)
      (unicast : t.communicate ≡ communicate_unicast) (memory : root.addrs_memory ≡ true)
      (meant : IsMeant
        (get_or addrs 0 0 == addr_broadcast)
        (get_or addrs 0 0 == addr_any)
        root.node.self_mac
        root.routing_table
        addrs
        list)
      (some_left : 0 < length list) (few : length list ≤ 2048) where
    send_packed-Delivered :
        (head : Head) (bytes : List ℕ)
        → Delivered
            (attempt head bytes)
            0
            bytes
            list
            (send_packed compress codes root block t head bytes addrs)
    unfolding send_packed targets
    send_packed-Delivered head bytes =
        let first = get_or addrs 0 0 in
        let many = first == addr_any || first == addr_broadcast in
        let same = IsMeant-targets addrs list (first == addr_broadcast) (first == addr_any) meant in
        let to_uni : (t.communicate == communicate_unicast) ≡ true = ground (arith, unicast) in
        let goes_on : (many
              && (not root.addrs_memory
                  || (first == addr_broadcast && (length list == 0 || ltb 2048 (length list)))))
            ≡ false =
          ground (arith, memory, some_left, few) in
        rw (same, to_uni, goes_on)
          (some_device block head bytes (if many then mdf_err_no_mem else mdf_ok) list some_left)

    -- Mwifi is started, and the message has 1 to 8095 bytes, can be packed, and is addressed to single
    -- devices and not to a group, by a list that is not empty and does not begin with the empty address.
    -- Where there is memory for the addresses and the list means at least one device and at most 2048,
    -- mwifi_root_write sends to exactly the devices that it means, in their order, and returns MDF_OK;
    -- or the sending to one of them fails, and it returns that error, after exactly the devices in
    -- front of it were sent the message without an error, and sends nothing to those behind it. A list
    -- that begins with the address for all means the routing table, one that begins with the address
    -- for all but the root means the table without the first entry of the root, and any other means
    -- itself. What goes to each device is the packed message.
    pub unicast_reaches :
        (empty_head head : Head) (bytes message : List ℕ)
        → t.group ≡ false
        → root.node.started ≡ true
        → 0 < length addrs
        → get_or addrs 0 0 ≢ addr_none
        → 0 < length bytes
        → length bytes < 8096
        → pack compress root.node.compress_memory
            (record empty_head { transmit_self = true; data_type = t })
            bytes
          ≡ packed head message
        → Delivered (attempt head message) 0 message list (
            mwifi_root_write compress codes root empty_head
              (some addrs)
              (some t)
              (some bytes)
              block)
    unfolding mwifi_root_write
    unicast_reaches empty_head head bytes message single started listed named some_bytes short
          packs =
        let refused : (get_or addrs 0 0 == addr_none
              || length bytes == 0
              || leb 8096 (length bytes))
            ≡ false =
          ground (arith, named, some_bytes, short) in
        let some_listed : (length addrs == 0) ≡ false = ground (arith, listed) in
        let running : (not root.node.started) ≡ false = ground (arith, started) in
        let to_devices : (t.group && not (t.communicate == communicate_broadcast)) ≡ false =
          ground (arith, single) in
        rw (packs, some_listed, refused, running, to_devices) (send_packed-Delivered head message)
