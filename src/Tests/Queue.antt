-- ===== src/Tests/Queue.antt =====
-- src/network/connection-pool.js, `MessageQueue` at concrete inputs.
use chainmail_protocol.Base.{
  ℕ, ◌≡◌, refl, inl, true, if◌then◌else◌, [], ◌∷◌, ◌++◌, none, some, arith, codes,
}
use chainmail_protocol.Network.MessageQueue.{
  Entry, Phase, MessageQueue, enqueues, fires, settles, init, reject, run,
}
use chainmail_protocol.Network.MessageQueue.Order.{IsValid, run-init-IsValid}
use chainmail_protocol.Network.MessageQueue.Progress.{rounds, rounds-messages, messages, run-reject}

abbrev entry : ℕ → Entry
entry p = record { message = codes "hello"; priority = p; enqueued_at = 0 }

run-init-IsValid_example :
    IsValid (run (init (some 5) none) (enqueues (entry 3) ∷ enqueues (entry 1) ∷ fires ∷ []))
run-init-IsValid_example =
    run-init-IsValid (some 5) none (enqueues (entry 3) ∷ enqueues (entry 1) ∷ fires ∷ [])
      ((λ e. cc), ((λ e. cc), ((λ e. cc), tt)))

abbrev waiting : MessageQueue
waiting = record {
  max_queue_size = 5;
  batch_size = 2;
  queue = entry 1 ∷ entry 2 ∷ entry 3 ∷ [];
  processing = true;
  phase = Phase.timer;
  handler = true;
  handed = [];
}

rounds-messages_example :
    ((rounds 2 waiting).queue ≡ [])
    × ((rounds 2 waiting).handed ≡ [] ++ (if true then messages waiting.queue else []))
rounds-messages_example = rounds-messages 2 waiting (inl refl) (omega arith)

abbrev sending : MessageQueue
sending = record waiting { phase = Phase.awaiting; queue = entry 3 ∷ [] }

sending-IsValid : IsValid sending
sending-IsValid = record {
  sorted = (tt, tt);
  bounded = omega arith;
  awake = λ h e. cc;
  busy = λ h. refl;
  calm = λ e. cc;
}

run-reject_example : (run (reject sending) (enqueues (entry 1) ∷ fires ∷ settles ∷ [])).handed ≡ []
run-reject_example =
    run-reject sending (enqueues (entry 1) ∷ fires ∷ settles ∷ []) sending-IsValid refl
