-- ===== src/Mwifi/Write/Deliver.antt =====
-- A message that mwifi_write sends to the root, as __mwifi_root_read returns it there.
use mathlib.Core.Path.{subst}
use pio_esp_mdf_example.Prelude.{
  ℕ, suc, ◌<◌, ◌≤◌, ◌≡◌, ◌≢◌, refl, sym, ap, ◌∙◌, Bool, true, false, not, ◌&&◌, ◌||◌, List, [],
  ◌++◌, map, none, some, length, leb, ◌==◌, if◌then◌else◌, arith,
}
use pio_esp_mdf_example.Mcommon.Err.{Err, mdf_ok, mdf_err_invalid_arg}
use pio_esp_mdf_example.Mwifi.Err.{MeshErr, err_not_start, err_no_root}
use pio_esp_mdf_example.Mwifi.Packet.{
  DataType, Head, payload_len, with_total_size, communicate_broadcast,
}
use pio_esp_mdf_example.Mwifi.Fragment.{Link, subcontract_write}
use pio_esp_mdf_example.Mwifi.Receive.{Answer, received, Reading}
use pio_esp_mdf_example.Mwifi.Receive.RoundTrip.{read-subcontract_write}
use pio_esp_mdf_example.Mwifi.RootRead.{
  Buffer, external, internal, Inflated, Message, returned, hand_over, root_read,
}
use pio_esp_mdf_example.Mwifi.RootRead.Whole.{Fits, root_read-complete}
use pio_esp_mdf_example.Mwifi.Transmit.{Addr}
use pio_esp_mdf_example.Mwifi.Write.{
  addr_root, refused, Deflated, Node, Packed, packed, not_packed, Written, address, pack, post,
  mwifi_write,
}
use pio_esp_mdf_example.Mwifi.Write.Unpack.{IsMiniz, shrinks, Unpacks, Unpacked, pack-Unpacked}

smaller-Fits : (buffer : Buffer) (m n : ℕ) → m ≤ n → Fits n buffer → Fits m buffer
smaller-Fits internal m n h fits = tt
smaller-Fits (external size) m n h fits = omega (arith, h, fits)

address_root : (node : Node) (t : DataType) → address node t true addr_root ≡ (t, addr_root)
unfolding address
address_root node t = ground arith

module _ (compress : List ℕ → Deflated) (uncompress : ℕ → List ℕ → Inflated)
    (miniz : IsMiniz compress uncompress) where
  module _ (codes : MeshErr) (link : Link) where
    post_to_root :
        (node : Node) (t : DataType) (block : Bool) (dest : ℕ) (head : Head) (bytes : List ℕ)
        → (t.communicate == communicate_broadcast && t.group) ≡ false
        → ((post compress codes link node t true dest block head bytes).ret
            ≡ (subcontract_write codes
                (record link { group = false })
                (with_total_size head (length bytes))
                bytes).ret)
          × ((post compress codes link node t true dest block head bytes).sent
              ≡ (subcontract_write codes
                  (record link { group = false })
                  (with_total_size head (length bytes))
                  bytes).sent)
    unfolding post
    post_to_root node t block dest head bytes single = (rw single refl, rw single refl)

    module _ (node : Node) (t : DataType) (bytes : List ℕ) (block : Bool) (empty_head : Head)
        (single : (t.communicate == communicate_broadcast && t.group) ≡ false) (buffer : Buffer)
        (fuel : ℕ) (rest : List Answer) (fits : Fits (length bytes) buffer)
        (enough : length bytes ≤ fuel) where
      abbrev type_sent : DataType
      type_sent = record t { compression = t.compression && shrinks compress bytes }

      abbrev Delivered : Written → Type 0
      Delivered w =
          w.ret ≡ mdf_ok
          → root_read uncompress (suc fuel) empty_head true true buffer
              (map received w.sent ++ rest)
            ≡ returned (record { ret = mdf_ok; data_type = some type_sent; bytes = bytes }) rest

      post-Delivered :
          (head head' : Head) (bytes' : List ℕ)
          → head.data_type ≡ t
          → length bytes < 8096
          → Unpacks compress uncompress miniz fuel buffer head bytes head' bytes'
          → Delivered (post compress codes link node t true addr_root block head' bytes')
      post-Delivered head head' bytes' known small unpacks ok =
          let link' : Link = record link { group = false } in
          let (same_ret, same_sent) = post_to_root node t block addr_root head' bytes' single in
          let start : Reading = record {
            bytes = [];
            capacity = payload_len;
            total = 0;
            expect_seq = 0;
            head = empty_head;
          } in
          let (r, whole, b, room, type, rate) =
            read-subcontract_write codes link' refl (with_total_size head' (length bytes')) bytes'
              start rest unpacks.1 (omega (arith, unpacks.2, small)) refl refl (omega arith)
              (sym same_ret ∙ ok) in
          let len = ap length b in
          let message : Message = record {
            ret = mdf_ok;
            data_type = some head'.data_type;
            bytes = bytes;
          } in
          let given : hand_over uncompress (suc fuel) buffer r.head.data_type r.head.compress_rate
                r.bytes
              ≡ some message =
            rw (b, type, rate) unpacks.0 in
          ap
            (λ packets.
              root_read uncompress (suc fuel) empty_head true true buffer
                (map received packets ++ rest))
            same_sent
          ∙ root_read-complete uncompress (suc fuel) empty_head buffer _ rest r message
              (omega (arith, len, unpacks.1))
              (smaller-Fits buffer (length r.bytes) (length bytes) (omega (arith, len, unpacks.2))
                fits)
              whole (omega (arith, len, room)) given
          ∙ ap
              (λ (d : DataType).
                returned (record { ret = mdf_ok; data_type = some d; bytes = bytes }) rest)
              (unpacks.3
                ∙ ap
                    (λ (d : DataType).
                      let d' : DataType = record d {
                        compression = d.compression && shrinks compress bytes;
                      } in
                      d')
                    known)

      packed-Delivered :
          (head : Head) (p : Packed)
          → head.data_type ≡ t
          → (pos : 0 < length bytes) → length bytes < 8096
          → Unpacked compress uncompress miniz fuel buffer node.compress_memory head bytes pos fits
              enough p
          → Delivered (elim p [
            | not_packed e ↦ refused e
            | packed head' bytes' ↦
                post compress codes link node t true addr_root block head' bytes'
          ])
      packed-Delivered head (packed head' bytes') known pos small unpacks =
          post-Delivered head head' bytes' known small unpacks
      packed-Delivered head (not_packed e) known pos small error = λ ok. absurd (error ok)

      guarded :
          (b : Bool) (e : Err) (w : Written)
          → e ≢ mdf_ok
          → (b ≡ false → Delivered w)
          → Delivered (if b then refused e else w)
      guarded true e w error go = λ ok. absurd (error ok)
      guarded false e w error go = go refl

      abbrev sends : DataType × Addr → Written
      sends (t', target) =
          elim (pack compress node.compress_memory
            (record empty_head { transmit_self = true; data_type = t' }) bytes) [
              | not_packed e ↦ refused e
              | packed head' bytes' ↦ post compress codes link node t true target block head' bytes'
            ]

      abbrev whole_write : DataType × Addr → Written
      whole_write (t', target) =
          if length bytes == 0 || leb 8096 (length bytes) || false
          then refused mdf_err_invalid_arg
          else if not node.started
          then refused err_not_start
          else if node.rootless
          then refused err_no_root
          else sends (t', target)

      mwifi_write_eq :
          mwifi_write compress codes link node empty_head none (some t) (some bytes) block
          ≡ whole_write (t, addr_root)
      unfolding mwifi_write
      mwifi_write_eq = ap whole_write (address_root node t)

      sends-Delivered : 0 < length bytes → length bytes < 8096 → Delivered (sends (t, addr_root))
      sends-Delivered pos small =
          let head : Head = record empty_head { transmit_self = true; data_type = t } in
          packed-Delivered head (pack compress node.compress_memory head bytes) refl pos small (
            pack-Unpacked compress uncompress miniz fuel buffer node.compress_memory head bytes pos
              fits enough)

      whole_write-Delivered : Delivered (whole_write (t, addr_root))
      whole_write-Delivered =
          let out = sends (t, addr_root) in
          let rooted = if node.rootless then refused err_no_root else out in
          let running = if not node.started then refused err_not_start else rooted in
          guarded (length bytes == 0 || leb 8096 (length bytes) || false) mdf_err_invalid_arg
            running (λ e. absurd (omega (arith, e)))
            (λ valid.
              guarded (not node.started) err_not_start rooted (λ e. absurd (omega (arith, e)))
                (λ started.
                  guarded node.rootless err_no_root out (λ e. absurd (omega (arith, e)))
                    (λ has_root. sends-Delivered (ground (arith, valid)) (ground (arith, valid)))))

      -- Let uncompress give back what compress was given, exactly if the buffer holds it. If mwifi_write
      -- returns MDF_OK for a message to the root that is not a broadcast to a group, and its packets
      -- arrive in order, then __mwifi_root_read returns MDF_OK with exactly the bytes that were written,
      -- whether or not they were compressed on the way, and with their type, in which the compression is
      -- off if it would have made the message longer. The buffer is allocated, or it is one of the caller
      -- that holds the message. The search for a large enough buffer ends after at most one more turn
      -- than the message has bytes.
      pub root_read-mwifi_write :
          (mwifi_write compress codes link node empty_head none (some t) (some bytes) block).ret
            ≡ mdf_ok
          → root_read uncompress (suc fuel) empty_head true true buffer (
              map received
                (mwifi_write compress codes link node empty_head none
                  (some t)
                  (some bytes)
                  block).sent
              ++ rest)
            ≡ returned (record { ret = mdf_ok; data_type = some type_sent; bytes = bytes }) rest
      root_read-mwifi_write = subst Delivered (sym mwifi_write_eq) whole_write-Delivered
