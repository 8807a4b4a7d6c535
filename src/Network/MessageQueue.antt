-- ===== src/Network/MessageQueue.antt =====
-- src/network/connection-pool.js, the class `MessageQueue`. The timer and the pending call of
-- `onBatchReady` are the field `phase`, `handler` says whether that callback is set, and `handed`
-- lists the messages handed to it.
pub mod Order
pub mod Progress
use chainmail_protocol.Base.{
  ℕ, zero, suc, Bool, true, false, List, [], ◌∷◌, ◌++◌, Option, none, some, map, length, take, drop,
  leb, or_else, if◌then◌else◌, Text,
}
use chainmail_protocol.Base.Sort.{sort, by_key}

pub record Entry : Type 0 where
  pub message : Text
  pub priority : ℕ
  pub enqueued_at : ℕ

-- `idle`: no timer; `timer`: `processBatch` is scheduled; `awaiting`: `onBatchReady` is running.
pub data Phase : Type 0 where
  idle timer awaiting : Phase

pub record MessageQueue : Type 0 where
  pub max_queue_size : ℕ
  pub batch_size : ℕ
  pub queue : List Entry
  pub processing : Bool
  pub phase : Phase
  pub handler : Bool
  pub handed : List Text

unfoldable pub init : Option ℕ → Option ℕ → MessageQueue
init max batch = record {
  max_queue_size = or_else max 1000;
  batch_size = or_else batch 10;
  queue = [];
  processing = false;
  phase = Phase.idle;
  handler = false;
  handed = [];
}

abbrev pub priority : Entry → ℕ
priority e = e.priority

unfoldable pub schedule_batch_process : MessageQueue → MessageQueue
schedule_batch_process q =
    if q.processing then q else record q { processing = true; phase = Phase.timer }

-- The flag says whether the message was taken; the source throws `Message queue full` otherwise.
unfoldable pub enqueue : Entry → MessageQueue → MessageQueue × Bool
unfolding sort schedule_batch_process
enqueue e q = if leb q.max_queue_size (length q.queue) then (q, false) else (
  schedule_batch_process (record q { queue = sort (by_key priority) (q.queue ++ e ∷ []) }),
  true,
)

-- What follows the `if` on `onBatchReady`.
abbrev finish_batch : List Entry → MessageQueue → MessageQueue
finish_batch [] q = record q { processing = false; phase = Phase.idle }
finish_batch (e ∷ es) q = record q { phase = Phase.timer }

-- The `if` on `onBatchReady`, with the batch that was spliced off the queue: without a callback the
-- batch is dropped, and `processBatch` goes on at once.
abbrev pass_batch : List Entry → MessageQueue → MessageQueue
pass_batch batch q =
    if q.handler
    then record q { phase = Phase.awaiting; handed = q.handed ++ map (λ x. x.message) batch }
    else finish_batch q.queue q

-- The timer runs `processBatch`, up to the call of `onBatchReady` if there is one.
abbrev start_batch : List Entry → MessageQueue → MessageQueue
start_batch [] q = record q { processing = false; phase = Phase.idle }
start_batch (e ∷ es) q =
    pass_batch (take q.batch_size (e ∷ es)) (record q { queue = drop q.batch_size (e ∷ es) })

unfoldable pub fire : MessageQueue → MessageQueue
fire q = elim q.phase [ Phase.timer ↦ start_batch q.queue q | Phase.idle ↦ q | Phase.awaiting ↦ q ]

unfoldable pub settle : MessageQueue → MessageQueue
settle q = elim q.phase [
  | Phase.awaiting ↦ finish_batch q.queue q
  | Phase.idle ↦ q
  | Phase.timer ↦ q
]

-- `onBatchReady` rejects: `processBatch` ends at the `await`.
unfoldable pub reject : MessageQueue → MessageQueue
reject q = elim q.phase [
  | Phase.awaiting ↦ record q { phase = Phase.idle }
  | Phase.idle ↦ q
  | Phase.timer ↦ q
]

unfoldable pub clear : MessageQueue → MessageQueue
clear q = record q { queue = [] }

-- The owner of the queue sets `onBatchReady`, to a function or back to null.
unfoldable pub listen : Bool → MessageQueue → MessageQueue
listen handler q = record q { handler = handler }

pub data Event : Type 0 where
  enqueues : Entry → Event
  listens : Bool → Event
  fires settles rejects clears : Event

unfoldable pub step : MessageQueue → Event → MessageQueue
step q (enqueues e) = (enqueue e q).0
step q (listens handler) = listen handler q
step q fires = fire q
step q settles = settle q
step q rejects = reject q
step q clears = clear q

unfoldable pub run : MessageQueue → List Event → MessageQueue
unfolding step
run q [] = q
run q (e ∷ es) = run (step q e) es
