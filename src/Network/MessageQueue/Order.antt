-- ===== src/Network/MessageQueue/Order.antt =====
-- src/network/connection-pool.js, `MessageQueue`: the order and the size of the queue.
use chainmail_protocol.Base.{
  ℕ, zero, suc, ◌≤◌, ◌≡◌, refl, ◌≢◌, Bool, true, false, List, [], ◌∷◌, ◌++◌, arith, length,
  length-append, length-drop, drop, All, Option,
}
use chainmail_protocol.Base.Sort.{by_key, IsSorted, sort-IsSorted, length-sort}
use chainmail_protocol.Network.MessageQueue.{
  Entry, Phase, MessageQueue, Event, enqueues, listens, fires, settles, rejects, clears, init,
  priority, schedule_batch_process, enqueue, fire, settle, clear, listen, step, run,
}

pub record IsValid (q : MessageQueue) : Type 0 where
  pub sorted : IsSorted priority q.queue
  pub bounded : length q.queue ≤ q.max_queue_size
  pub awake : q.queue ≢ [] → q.phase ≢ Phase.idle
  pub busy : q.phase ≢ Phase.idle → q.processing ≡ true
  pub calm : q.phase ≡ Phase.idle → q.processing ≡ false

drop-IsSorted : (n : ℕ) (es : List Entry) → IsSorted priority es → IsSorted priority (drop n es)
drop-IsSorted zero es s = s
drop-IsSorted (suc n) [] s = s
drop-IsSorted (suc n) (e ∷ es) s = drop-IsSorted n es s.1

enqueue-IsValid : (e : Entry) (q : MessageQueue) → IsValid q → IsValid (enqueue e q).0
unfolding enqueue schedule_batch_process
enqueue-IsValid e q v = ground (
  arith,
  sort-IsSorted priority (q.queue ++ e ∷ []),
  length-sort (by_key priority) (q.queue ++ e ∷ []),
  length-append q.queue (e ∷ []),
)

fire-IsValid : (q : MessageQueue) → IsValid q → IsValid (fire q)
unfolding fire
fire-IsValid q v =
    ground (arith, drop-IsSorted q.batch_size q.queue v.sorted, length-drop q.batch_size q.queue)

settle-IsValid : (q : MessageQueue) → IsValid q → IsValid (settle q)
unfolding settle
settle-IsValid q v = ground arith

clear-IsValid : (q : MessageQueue) → IsValid q → IsValid (clear q)
unfolding clear
clear-IsValid q v = ground arith

listen-IsValid : (h : Bool) (q : MessageQueue) → IsValid q → IsValid (listen h q)
unfolding listen
listen-IsValid h q v = ground arith

pub step-IsValid : (q : MessageQueue) (e : Event) → e ≢ rejects → IsValid q → IsValid (step q e)
unfolding step
step-IsValid q (enqueues e) h v = enqueue-IsValid e q v
step-IsValid q (listens b) h v = listen-IsValid b q v
step-IsValid q fires h v = fire-IsValid q v
step-IsValid q settles h v = settle-IsValid q v
step-IsValid q rejects h v = absurd (h refl)
step-IsValid q clears h v = clear-IsValid q v

run-IsValid :
    (q : MessageQueue) (es : List Event)
    → All (λ e. e ≢ rejects) es
    → IsValid q
    → IsValid (run q es)
unfolding run
run-IsValid q [] h v = v
run-IsValid q (e ∷ es) h v = run-IsValid (step q e) es h.1 (step-IsValid q e h.0 v)

-- As long as `onBatchReady` never rejects, a new queue stays sorted by priority and within its
-- size, and it holds messages only while a timer or a batch is pending; `processing` says exactly
-- whether one is.
pub run-init-IsValid :
    (max batch : Option ℕ) (es : List Event)
    → All (λ e. e ≢ rejects) es
    → IsValid (run (init max batch) es)
unfolding init
run-init-IsValid max batch es h = run-IsValid _ es h (ground arith)
