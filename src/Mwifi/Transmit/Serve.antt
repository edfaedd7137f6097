-- ===== src/Mwifi/Transmit/Serve.antt =====
-- Which devices mwifi_transmit_write sends a message to.
use pio_esp_mdf_example.Prelude.{
  ℕ, ◌+◌, ◌<◌, ◌≤◌, ◌≡◌, ◌≢◌, refl, ap, ◌∙◌, true, false, not, ◌&&◌, ◌||◌, List, [], ◌∷◌, ◌++◌,
  length, get_or, ◌==◌, if◌then◌else◌, arith, count,
}
use pio_esp_mdf_example.Mcommon.Err.{Err, mdf_ok}
use pio_esp_mdf_example.Mwifi.Packet.{Head}
use pio_esp_mdf_example.Mwifi.Transmit.{
  Addr, addr_any, addr_broadcast, addrs_remove, TransmitApi, Call, take_subnet, split_child,
  to_children, to_devices, transmit_write,
}

count-addrs_remove :
    (a addr : Addr) (addrs : List Addr)
    → (count a addrs
        ≡ count a (addrs_remove addrs addr).1
          + (if (addrs_remove addrs addr).0 then (if addr == a then 1 else 0) else 0))
      × (length addrs
          ≡ length (addrs_remove addrs addr).1 + (if (addrs_remove addrs addr).0 then 1 else 0))
unfolding addrs_remove
count-addrs_remove a addr [] = ground arith
count-addrs_remove a addr (b ∷ bs) = ground (arith, count-addrs_remove a addr bs)

count-take_subnet :
    (a : Addr) (nodes addrs : List Addr)
    → (count a addrs ≡ count a (take_subnet nodes addrs).0 + count a (take_subnet nodes addrs).1)
      × (length (take_subnet nodes addrs).0 + length (take_subnet nodes addrs).1 ≤ length addrs)
unfolding take_subnet
count-take_subnet a [] addrs = ground arith
count-take_subnet a (node ∷ nodes) addrs =
    ground (
      arith,
      count-addrs_remove a node addrs,
      count-take_subnet a nodes (addrs_remove addrs node).1,
    )

-- How often the calls address a device: as the child that is to keep the message, or on the list in
-- front of it.
abbrev pub kept_by : Addr → Head → Addr → ℕ
kept_by a head child = if head.transmit_self then (if child == a then 1 else 0) else 0

abbrev pub served : Addr → List Call → ℕ
served a [] = 0
served a (c ∷ cs) = kept_by a c.head c.dest + count a c.forward + served a cs

served-append : (a : Addr) (xs ys : List Call) → served a (xs ++ ys) ≡ served a xs + served a ys
served-append a [] ys = omega arith
served-append a (x ∷ xs) ys = omega (arith, served-append a xs ys)

count-eq-zero : (a : Addr) (xs : List Addr) → length xs ≡ 0 → count a xs ≡ 0
count-eq-zero a [] h = refl
count-eq-zero a (x ∷ xs) h = absurd (omega (arith, h))

count-split_child :
    (api : TransmitApi) (head : Head) (addrs : List Addr) (child a : Addr)
    → head.transmit_all ≡ false
    → length addrs < 1024
    → (count a addrs
        ≡ kept_by a (split_child api head addrs child).0 child
          + count a (split_child api head addrs child).1
          + count a (split_child api head addrs child).2)
      × (length (split_child api head addrs child).2 ≤ length addrs)
      × ((split_child api head addrs child).0.transmit_num
          ≡ length (split_child api head addrs child).1)
      × ((split_child api head addrs child).0.transmit_all ≡ false)
unfolding split_child
count-split_child api head addrs child a some few =
    let rest = (addrs_remove addrs child).1 in
    let removed = count-addrs_remove a child addrs in
    let taken = count-take_subnet a (api.subnet child) rest in
    (
      ground (arith, removed, taken),
      ground (arith, removed, taken),
      ground (arith, removed, taken),
      ground (arith),
    )

module _ (api : TransmitApi) (message : List ℕ) (a : Addr)
    (reachable : (child : Addr) → api.subnet_num_ret child ≡ mdf_ok) where
  to_children-served :
      (children : List Addr) (k : ℕ) (ret : Err) (head : Head) (addrs : List Addr)
      → head.transmit_all ≡ false
      → length addrs < 1024
      → (served a (to_children api message children k ret head addrs).calls
            + count a (to_children api message children k ret head addrs).addrs
          ≡ count a addrs)
        × ((to_children api message children k ret head addrs).head.transmit_all ≡ false)
  unfolding to_children
  to_children-served [] k ret head addrs some few = ground arith
  to_children-served (child ∷ children) k ret head addrs some few =
      let s = split_child api head addrs child in
      let split = count-split_child api head addrs child a some few in
      let empty = count-eq-zero a s.1 in
      let asked = if head.transmit_all then ret else api.subnet_num_ret child in
      let listed =
        if head.transmit_all || length (api.subnet child) == 0
        then asked
        else api.subnet_list_ret child in
      let fewer : length s.2 < 1024 = omega (arith, few, split.1) in
      let idle = to_children-served children k listed s.0 s.2 split.3 fewer in
      let rest = to_children-served children (k + 1) mdf_ok s.0 s.2 split.3 fewer in
      let known = reachable child in
      (
        ground (arith, some, known, split.0, split.2, split.3, empty, idle.0, rest.0),
        ground (arith, some, known, split.3, idle.1, rest.1),
      )

to_devices-served :
    (api : TransmitApi) (message : List ℕ) (head : Head) (a : Addr) (addrs : List Addr) (k : ℕ)
    (ret : Err)
    → head.transmit_self ≡ true
    → served a (to_devices api message head addrs k ret).1 ≡ count a addrs
unfolding to_devices
to_devices-served api message head a [] k ret self = refl
to_devices-served api message head a (b ∷ addrs) k ret self =
    ground (arith, self, to_devices-served api message head a addrs (k + 1) (api.written k) self)

to_children_lost :
    (api : TransmitApi) (message : List ℕ) (child : Addr) (more : List Addr) (k : ℕ) (ret : Err)
    (head : Head) (addrs : List Addr)
    → head.transmit_all ≡ false
    → api.subnet_num_ret child ≢ mdf_ok
    → (addrs_remove addrs child).0 ≡ true
    → ((to_children api message (child ∷ more) k ret head addrs).calls ≡ [])
      × ((to_children api message (child ∷ more) k ret head addrs).addrs
          ≡ (addrs_remove addrs child).1)
      × ((to_children api message (child ∷ more) k ret head addrs).head.transmit_all ≡ false)
unfolding to_children
to_children_lost api message child more k ret head addrs some unknown listed =
    let removed = count-addrs_remove child child addrs in
    (ground (arith, removed), ground (arith, removed), ground (arith, removed))

module _ (api : TransmitApi) (head : Head) (addrs : List Addr) (message : List ℕ)
    (some : head.transmit_all ≡ false) (first : get_or addrs 0 0 ≢ addr_any)
    (first' : get_or addrs 0 0 ≢ addr_broadcast) where
  abbrev children : List Addr
  children = if api.leaf || not (api.sta_ret == mdf_ok) then [] else api.sta

  transmit_write-served :
      (a : Addr)
      → (to_children api message children 0 mdf_ok
          (record head { transmit_all = false })
          addrs).head.transmit_all
        ≡ false
      → served a (transmit_write api head addrs message).1
        ≡ served a
            (to_children api message children 0 mdf_ok
              (record head { transmit_all = false })
              addrs).calls
          + count a
              (to_children api message children 0 mdf_ok
                (record head { transmit_all = false })
                addrs).addrs
  unfolding transmit_write
  transmit_write-served a quiet =
      let t =
        to_children api message children 0 mdf_ok (record head { transmit_all = false }) addrs in
      let head' : Head = record (t.head) {
        transmit_self = true;
        transmit_num = 0;
        transmit_all = false;
      } in
      let direct = to_devices api message head' t.addrs (length t.calls) t.ret in
      let listed : (get_or addrs 0 0 == addr_any
            || get_or addrs 0 0 == addr_broadcast
            || head.transmit_all)
          ≡ false =
        ground arith in
      let others : (get_or t.addrs 0 0 == addr_any && t.head.transmit_all && api.root) ≡ false =
        ground (arith, quiet) in
      rw (listed, others, quiet)
        (served-append a t.calls direct.1
          ∙ ap (λ (n : ℕ). served a t.calls + n)
              (to_devices-served api message head' a t.addrs (length t.calls) t.ret refl))

  -- mwifi_transmit_write sends a message for fewer than 1024 listed devices, of which the first does
  -- not stand for all and which is not marked for all, to each as often as it is on the list, be it as a
  -- child, behind a child or directly, whatever the mesh looks like and whatever sends fail, if the number
  -- of nodes behind each child can be asked for.
  pub transmit_serves :
      (a : Addr)
      → length addrs < 1024
      → ((child : Addr) → api.subnet_num_ret child ≡ mdf_ok)
      → served a (transmit_write api head addrs message).1 ≡ count a addrs
  transmit_serves a few reachable =
      let (same, quiet) =
        to_children-served api message a reachable children 0 mdf_ok
          (record head { transmit_all = false }) addrs refl few in
      transmit_write-served a quiet ∙ same

  -- If the number of nodes behind the first child cannot be asked for and the child is on the list, then
  -- it gets the message once less than it is listed: it is taken off the list before it is sent to.
  unasked_child_misses :
      (child : Addr) (more : List Addr)
      → api.leaf ≡ false
      → api.sta_ret ≡ mdf_ok
      → api.sta ≡ child ∷ more
      → api.subnet_num_ret child ≢ mdf_ok
      → (addrs_remove addrs child).0 ≡ true
      → served child (transmit_write api head addrs message).1 + 1 ≡ count child addrs
  unasked_child_misses child more node has_children there unknown listed =
      let head' : Head = record head { transmit_all = false } in
      let both : children ≡ child ∷ more = ground arith in
      let removed = count-addrs_remove child child addrs in
      let (none, rest, quiet) =
        to_children_lost api message child more 0 mdf_ok head' addrs refl unknown listed in
      let sent = transmit_write-served child (rw both quiet) in
      let calls : served child (to_children api message children 0 mdf_ok head' addrs).calls ≡ 0 =
        rw (both, none) refl in
      let left : count child (to_children api message children 0 mdf_ok head' addrs).addrs
          ≡ count child (addrs_remove addrs child).1 =
        rw (both, rest) refl in
      ground (arith, sent, calls, left, removed.0, listed)
