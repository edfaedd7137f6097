-- ===== src/Mupgrade/Root/Count.antt =====
-- No device is lost to the lists twice: what the loops do with one address.
use pio_esp_mdf_example.Prelude.{
  ℕ, zero, suc, ◌+◌, ◌≤◌, ◌≡◌, refl, List, [], ◌∷◌, none, some, arith, ◌==◌, if◌then◌else◌, count,
  count-append, Bool-cases, inl, inr,
}
use pio_esp_mdf_example.Mupgrade.Progress.{filled}
use pio_esp_mdf_example.Mupgrade.Root.{
  Addr, Result, Report, Queue, Asking, addrs_remove, note_finished, drain_finished, note_response,
  collect, ask, request_status,
}

-- addrs_remove answers whether the address is in the list, takes out one occurrence of it if it is,
-- and leaves every other address as often as before.
pub count-addrs_remove :
    (a addr : Addr) (addrs : List Addr)
    → count a addrs
      ≡ count a (addrs_remove addrs addr).1
        + (if (addrs_remove addrs addr).0 then (if addr == a then 1 else 0) else 0)
unfolding addrs_remove
count-addrs_remove a addr [] = refl
count-addrs_remove a addr (b ∷ bs) = ground (arith, count-addrs_remove a addr bs)

-- How often an address is in the lists of what is to do and what is done.
abbrev pub tally : Addr → Result → ℕ
tally a r = count a r.unfinished + count a r.successed

tally-note_finished :
    (a : Addr) (r : Result) (q : Report) → tally a (note_finished r q).1 ≤ tally a r
unfolding note_finished
tally-note_finished a r q = ground (
  arith,
  count-addrs_remove a q.src_addr r.unfinished,
  count-append a r.successed (q.src_addr ∷ []),
)

pub tally-drain_finished :
    (a : Addr) (r : Result) (queue : Queue) → tally a (drain_finished r queue).1 ≤ tally a r
unfolding drain_finished
tally-drain_finished a r [] = omega arith
tally-drain_finished a r (none ∷ queue) = omega arith
tally-drain_finished a r (some q ∷ queue) =
    ground (arith, tally-note_finished a r q, tally-drain_finished a (note_finished r q).1 queue)

tally-note_response :
    (a : Addr) (s : Asking) (q : Report) → tally a (note_response s q).result ≤ tally a s.result
unfolding note_response
tally-note_response a s q = ground (
  arith,
  count-addrs_remove a q.src_addr s.result.unfinished,
  count-append a s.result.successed (q.src_addr ∷ []),
)

tally-collect :
    (a : Addr) (s : Asking) (queue : Queue) → tally a (collect s queue).0.result ≤ tally a s.result
unfolding collect
tally-collect a s [] = omega arith
tally-collect a s (none ∷ queue) = ground arith
tally-collect a s (some q ∷ queue) =
    ground (arith, tally-note_response a s q, tally-collect a (note_response s q) queue)

pub tally-ask :
    (n : ℕ) (a : Addr) (s : Asking) (queue : Queue)
    → tally a (ask n s queue).0.result ≤ tally a s.result
unfolding ask
tally-ask zero a s queue = omega arith
tally-ask (suc n) a s queue =
    ground (arith, tally-collect a s queue, tally-ask n a (collect s queue).0 (collect s queue).1)

-- Asking for the status never makes up a device: each address is together in the lists of
-- unfinished and of succeeded devices at most as often as before, whatever reports come.
pub tally-request_status :
    (a : Addr) (progress : List ℕ) (r : Result) (queue : Queue)
    → tally a (request_status progress r queue).result ≤ tally a r
unfolding request_status
tally-request_status a progress r queue =
    let d = drain_finished (record r { requested = [] }) queue in
    let asking : Asking = record {
      result = d.1;
      request_addrs = d.1.unfinished;
      progress = filled 0xff;
    } in
    let drained = tally-drain_finished a (record r { requested = [] }) queue in
    let asked = tally-ask 3 a asking d.2 in
    elim (Bool-cases d.0) [
      | inl done ↦ rw done (omega (arith, drained))
      | inr more ↦ rw more (omega (arith, drained, asked))
    ]
