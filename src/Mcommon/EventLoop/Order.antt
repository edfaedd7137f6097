-- ===== src/Mcommon/EventLoop/Order.antt =====
-- Which events the queue of the event loop holds.
use pio_esp_mdf_example.Prelude.{
  suc, ◌+◌, ◌-◌, ◌≤◌, ◌≡◌, refl, ap, ◌∙◌, sym, List, [], ◌∷◌, ◌++◌, some, arith, ltb, drop, length,
  length-append, Bool-cases, inl, inr,
}
use pio_esp_mdf_example.Mcommon.EventLoop.{EventData, Loop, push, event_loop_send, event_queue_num}

push_all : List EventData → List EventData → List EventData
push_all items [] = items
push_all items (e ∷ es) = push_all (push items e) es

-- The loop after events were sent, none of which was handled meanwhile.
unfoldable pub send_all : Loop → List EventData → Loop
send_all loop [] = loop
send_all loop (e ∷ es) = send_all (event_loop_send loop e).1 es

append_assoc :
    (xs : List EventData) (e : EventData) (es : List EventData)
    → (xs ++ e ∷ []) ++ es ≡ xs ++ e ∷ es
append_assoc [] e es = refl
append_assoc (x ∷ xs) e es = ap (◌∷◌ x) (append_assoc xs e es)

append_nil : (xs : List EventData) → xs ++ [] ≡ xs
append_nil [] = refl
append_nil (x ∷ xs) = ap (◌∷◌ x) (append_nil xs)

push_all-drop :
    (items es : List EventData)
    → length items ≤ event_queue_num
    → push_all items es ≡ drop (length items + length es - event_queue_num) (items ++ es)
unfolding push_all push
push_all-drop items [] h =
    let n : length items + 0 - event_queue_num ≡ 0 = omega arith in rw n (sym (append_nil items))
push_all-drop [] (e ∷ es) h =
    let n : 0 + suc (length es) - event_queue_num ≡ 1 + length es - event_queue_num = omega arith in
    rw n (push_all-drop (e ∷ []) es (omega arith))
push_all-drop (x ∷ xs) (e ∷ es) h =
    let after = length-append xs (e ∷ []) in
    elim (Bool-cases (ltb (length (x ∷ xs)) event_queue_num)) [
      | inl room ↦
          let ih = push_all-drop (x ∷ (xs ++ e ∷ [])) es (ground (arith, after)) in
          let n : suc (length (xs ++ e ∷ [])) + length es - event_queue_num
              ≡ suc (length xs) + suc (length es) - event_queue_num =
            omega (arith, after) in
          rw room (
            ih
            ∙ ap (λ k. drop k (x ∷ ((xs ++ e ∷ []) ++ es))) n
            ∙ ap (λ ys. drop (suc (length xs) + suc (length es) - event_queue_num) (x ∷ ys))
                (append_assoc xs e es))
      | inr full ↦
          let long : length xs ≡ 19 = ground arith in
          let ih = push_all-drop (xs ++ e ∷ []) es (omega (arith, after, long)) in
          let n : length (xs ++ e ∷ []) + length es - event_queue_num ≡ length es =
            omega (arith, after, long) in
          let m : suc (length xs) + suc (length es) - event_queue_num ≡ suc (length es) =
            omega (arith, long) in
          rw (full, m)
            (ih
              ∙ ap (λ k. drop k ((xs ++ e ∷ []) ++ es)) n
              ∙ ap (drop (length es)) (append_assoc xs e es))
    ]

send_all-push_all :
    (loop : Loop) (items es : List EventData)
    → loop.queue ≡ some items
    → (send_all loop es).queue ≡ some (push_all items es)
unfolding send_all event_loop_send push_all
send_all-push_all loop items [] e = e
send_all-push_all loop items (x ∷ es) e =
    send_all-push_all (event_loop_send loop x).1 (push items x) es (ground (arith, e))

-- Events that are sent one after the other stand in the queue in this order behind those that were
-- there, and of all these events the queue holds the last 20: a full queue loses its oldest.
pub send_all-drop :
    (loop : Loop) (items es : List EventData)
    → loop.queue ≡ some items
    → length items ≤ event_queue_num
    → (send_all loop es).queue
      ≡ some (drop (length items + length es - event_queue_num) (items ++ es))
send_all-drop loop items es e h =
    send_all-push_all loop items es e ∙ ap some (push_all-drop items es h)
