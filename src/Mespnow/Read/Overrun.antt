-- ===== src/Mespnow/Read/Overrun.antt =====
-- Only the first packet is held against the caller's buffer.
use pio_esp_mdf_example.Prelude.{
  ℕ, ◌+◌, ◌<◌, ◌≤◌, ◌≡◌, refl, sym, ap, ◌∙◌, true, List, ◌∷◌, ◌++◌, some, arith, length, take,
  length-take, length-append,
}
use pio_esp_mdf_example.Mcommon.Err.{Err, mdf_ok}
use pio_esp_mdf_example.Mespnow.Frame.{Frame}
use pio_esp_mdf_example.Mespnow.State.{Mespnow, QueueData}
use pio_esp_mdf_example.Mespnow.Read.{read, read_first, read_rest}
use pio_esp_mdf_example.Mespnow.Read.Steps.{item, read_rest-done, read_rest-next, read_first-found}

module _ (size : ℕ) (addr addr' : List ℕ) (f f' : Frame) (queue : List QueueData) where
  abbrev two : List QueueData
  two = item addr f ∷ item addr' f' ∷ queue

  read_first-two :
      f.seq ≡ 0
      → f.total_size < size
      → f.size < f.total_size
      → f.size ≤ length f.payload
      → f'.seq ≡ 1
      → f'.size ≤ length f'.payload
      → size < f.size + f'.size
      → ((read_first size two).ret ≡ mdf_ok) × (size < length (read_first size two).bytes)
  read_first-two first fits part within next within' over =
      let got = take f.size f.payload in
      let got' = take f'.size f'.payload in
      let length-got : length got ≡ f.size = omega (arith, length-take f.size f.payload) in
      let length-both : length (got ++ got') ≡ f.size + f'.size =
        omega (arith, length-append got got', length-got, length-take f'.size f'.payload) in
      let steps =
        read_first-found size addr f (item addr' f' ∷ queue) first fits
        ∙ ap (λ t. read_rest size addr f.total_size t got (item addr' f' ∷ queue)) (sym next)
        ∙ read_rest-next size f.total_size addr got addr' f' queue (omega arith)
        ∙ read_rest-done size f.total_size (f'.seq + 1) addr (got ++ got') queue (omega arith) in
      rw steps (refl, omega arith)

-- mespnow_read writes past the end of the caller's buffer, and returns MDF_OK, whenever the queue
-- holds a first packet that states a total which fits the buffer, and then a second packet whose
-- payload brings the bytes above the size of the buffer: the payload of a later packet is not held
-- against what is left of the message.
pub read_overruns :
    (not_init : Err) (s : Mespnow) (pipe size : ℕ) (addr addr' : List ℕ) (f f' : Frame)
    (queue : List QueueData)
    → s.init_flag ≡ true
    → pipe < 4
    → f.seq ≡ 0
    → f.total_size < size
    → f.size < f.total_size
    → f.size ≤ length f.payload
    → f'.seq ≡ 1
    → f'.size ≤ length f'.payload
    → size < f.size + f'.size
    → let r = read not_init s pipe true true (some size) (item addr f ∷ item addr' f' ∷ queue) in
      (r.ret ≡ mdf_ok) × (size < length r.bytes)
unfolding read
read_overruns not_init s pipe size addr addr' f f' queue ready in_range first fits part within next
      within' over =
    let found =
      read_first-two size addr addr' f f' queue first fits part within next within' over in
    ground (arith, found)
