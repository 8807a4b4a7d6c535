-- ===== src/Network/MessageQueue/Progress.antt =====
-- src/network/connection-pool.js, `MessageQueue`: every message is handed over, unless a batch fails.
use chainmail_protocol.Base.{
  ℕ, zero, suc, ◌*◌, ◌≤◌, ◌≡◌, refl, ◌⊎◌, Bool, true, false, if◌then◌else◌, List, [], ◌∷◌, ◌++◌,
  arith, map, length, length-drop, take, drop, Text, take-append-drop, ap, sym, ◌∙◌,
}
use chainmail_protocol.Network.MessageQueue.{
  Entry, Phase, MessageQueue, Event, enqueues, listens, fires, settles, rejects, clears,
  schedule_batch_process, enqueue, fire, settle, reject, clear, listen, step, run,
}
use chainmail_protocol.Network.MessageQueue.Order.{IsValid}
use mathlib.Core.List.{append-nil, append_assoc, map-append}

-- `k` rounds of the timer and the callback.
unfoldable pub rounds : ℕ → MessageQueue → MessageQueue
rounds zero q = q
rounds (suc k) q = rounds k (settle (fire q))

abbrev pub messages : List Entry → List Text
messages = map (λ (e : Entry). e.message)

-- What the callback receives of the queue: nothing, if there is none.
abbrev pub received : Bool → List Entry → List Text
received handler es = if handler then messages es else []

abbrev pub IsReady : MessageQueue → Type 0
IsReady q = (q.phase ≡ Phase.timer) ⊎ ((q.queue ≡ []) × (q.phase ≡ Phase.idle))

round-IsReady : (q : MessageQueue) → IsReady q → IsReady (settle (fire q))
unfolding settle fire
round-IsReady q r = ground arith

round_split :
    (n : ℕ) (es : List Entry) (handed : List Text)
    → (handed ++ messages (take n es)) ++ messages (drop n es) ≡ handed ++ messages es
round_split n es handed =
    append_assoc handed (messages (take n es)) (messages (drop n es))
    ∙ ap (◌++◌ handed) (
        sym (map-append (λ (e : Entry). e.message) (take n es) (drop n es))
        ∙ ap messages (take-append-drop n es))

drop_nil : (n : ℕ) → drop {A = Entry} n [] ≡ []
drop_nil zero = refl
drop_nil (suc n) = refl

round_lem :
    (q : MessageQueue)
    → IsReady q
    → ((settle (fire q)).queue ≡ drop q.batch_size q.queue)
      × ((settle (fire q)).handed ++ received q.handler (drop q.batch_size q.queue)
          ≡ q.handed ++ received q.handler q.queue)
      × ((settle (fire q)).handler ≡ q.handler)
      × ((settle (fire q)).batch_size ≡ q.batch_size)
unfolding settle fire
round_lem q r =
    ground
      (arith, round_split q.batch_size q.queue q.handed, drop_nil q.batch_size, append-nil q.handed)

empty : (es : List Entry) → length es ≤ 0 → es ≡ []
empty [] h = refl
empty (e ∷ es) h = absurd (omega arith)

received_nil : (handler : Bool) → received handler [] ≡ []
received_nil true = refl
received_nil false = refl

-- With a timer pending, as many rounds as batches empty the queue, if no batch fails and nothing is
-- added in between: a callback that is set then has received every message, in the order of the
-- queue; without one, every message is lost.
pub rounds-messages :
    (k : ℕ) (q : MessageQueue)
    → IsReady q
    → length q.queue ≤ k * q.batch_size
    → ((rounds k q).queue ≡ [])
      × ((rounds k q).handed ≡ q.handed ++ (if q.handler then messages q.queue else []))
unfolding rounds
rounds-messages zero q r h =
    let e = empty q.queue (omega arith) in
    (
      e,
      sym (append-nil q.handed)
          ∙ ap (q.handed ++◌) (sym (received_nil q.handler))
          ∙ ap (λ es. q.handed ++ received q.handler es) (sym e),
    )
rounds-messages (suc k) q r h =
    let (left, kept, listening, same) = round_lem q r in
    let q' : MessageQueue = settle (fire q) in
    let (done, all) =
      rounds-messages k q' (round-IsReady q r)
        (omega (arith, ap length left, length-drop q.batch_size q.queue, ap (λ b. k * b) same)) in
    (
      done,
      all
          ∙ ap (λ es. q'.handed ++ received q'.handler es) left
          ∙ ap (λ b. q'.handed ++ received b (drop q.batch_size q.queue)) listening
          ∙ kept,
    )

step_stuck :
    (q : MessageQueue) (e : Event)
    → q.phase ≡ Phase.idle
    → q.processing ≡ true
    → ((step q e).phase ≡ Phase.idle)
      × ((step q e).processing ≡ true)
      × ((step q e).handed ≡ q.handed)
unfolding step enqueue schedule_batch_process fire settle reject clear listen
step_stuck q (enqueues e) i b = ground arith
step_stuck q (listens h) i b = (i, b, refl)
step_stuck q fires i b = ground arith
step_stuck q settles i b = ground arith
step_stuck q rejects i b = ground arith
step_stuck q clears i b = (i, b, refl)

run_stuck :
    (q : MessageQueue) (es : List Event)
    → q.phase ≡ Phase.idle
    → q.processing ≡ true
    → (run q es).handed ≡ q.handed
unfolding run
run_stuck q [] i b = refl
run_stuck q (e ∷ es) i b =
    let (i', b', same) = step_stuck q e i b in run_stuck (step q e) es i' b' ∙ same

-- A batch that fails stops the queue for good: once `onBatchReady` has rejected in a queue that was
-- in order, no later message is ever handed over, whatever is added afterwards.
pub run-reject :
    (q : MessageQueue) (es : List Event)
    → IsValid q
    → q.phase ≡ Phase.awaiting
    → (run (reject q) es).handed ≡ q.handed
unfolding reject
run-reject q es v e = run_stuck (reject q) es (ground arith) (ground arith) ∙ ground arith
