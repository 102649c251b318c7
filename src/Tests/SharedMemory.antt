-- ===== src/Tests/SharedMemory.antt =====
-- The producer and the consumer of ipc-code on concrete schedules.
use os333_iit_bombay_labs.Prelude.{
  write, ◌+◌, ◌≡◌, refl, some, List, [], ◌∷◌, ◌++◌, map, length, ◌>>=◌,
}
use os333_iit_bombay_labs.Prelude.Text.{codes, text_eq}
use os333_iit_bombay_labs.SharedMemory.{
  message, Queue, Process, the_producer, the_consumer, run, start, consume, produce,
}
use os333_iit_bombay_labs.SharedMemory.Invariant.{slot_at, to_read, pending}
use os333_iit_bombay_labs.SharedMemory.Delivery.{messages_in_order}

-- Two messages are written, the first is read, and the slot of the first is used again.
abbrev schedule : List Process
schedule =
    the_producer ∷ the_producer ∷ the_producer ∷ the_producer ∷ the_consumer ∷ the_producer
    ∷ the_producer ∷ the_producer ∷ the_consumer ∷ the_producer ∷ the_producer ∷ the_consumer ∷ []

read_first : (run schedule start >>= λ q. some q.received) ≡ some (codes "OSisFUN 999" ∷ [])
unfolding run start produce consume message text_eq write
read_first = refl

messages_in_order_example :
    (q : Queue) × (run schedule start ≡ some q)
    × (q.received ++ map (slot_at q.slots) (to_read q) ≡ q.sent)
    × (length q.sent + q.dropped + pending q.producer + q.itr ≡ 1000)
messages_in_order_example = messages_in_order schedule
