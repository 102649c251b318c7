-- ===== src/SharedMemory.antt =====
-- ipc-code/shm-posix-producer.c and shm-posix-consumer.c: messages in the slots of a shared page, whose numbers go
-- through a FIFO. A string operation on a slot is one step. `none` is an access outside the page.
pub mod Invariant
pub mod Sending
pub mod Delivery
use os333_iit_bombay_labs.Prelude.{
  ℕ, zero, suc, ◌+◌, ◌-◌, ◌/◌, ◌%◌, Bool, true, false, Option, none, some, List, [], ◌∷◌, ◌++◌,
  get_elem?, replicate, take, write, ltb, leb, ◌==◌, if◌then◌else◌, ◌>>=◌,
}
use os333_iit_bombay_labs.Prelude.Text.{Text, codes, text_eq}

abbrev pub message_size : ℕ
message_size = 16

abbrev pub total_slots : ℕ
total_slots = 4096 / message_size

abbrev pub free : Text
free = codes "freeeee"

-- `%d` of a number that is not negative; ten digits are enough for an int.
abbrev pub decimal_from : ℕ → ℕ → Text
decimal_from zero n = []
decimal_from (suc digits) n =
    let rest = decimal_from digits (n / 10) in
    (if ltb n 10 then [] else rest) ++ (b'0' + n % 10) ∷ []

abbrev pub decimal : ℕ → Text
decimal = decimal_from 10

-- `snprintf(ptr, MESSAGE_SIZE, "%s %d", MESSAGE, itr)`
unfoldable pub message : ℕ → Text
message itr = take (message_size - 1) (codes "OSisFUN" ++ b' ' ∷ decimal itr)

-- The producer is at the test of its `while`, compares a slot, writes to a free one, writes the
-- number of the slot to the FIFO, or has ended.
pub data Producer : Type 0 where
  at_loop : Producer
  compare fill announce : ℕ → Producer
  ended : Producer

-- The consumer reads the FIFO, prints a slot, or marks it as free.
pub data Consumer : Type 0 where
  at_read : Consumer
  show release : ℕ → Consumer

-- The page by its slots, the FIFO, the two programs, and, for what the theorems say, the messages
-- written to slots and printed, and how often the producer found no free slot.
pub record Queue : Type 0 where
  pub slots : List Text
  pub fifo : List ℕ
  pub producer : Producer
  pub consumer : Consumer
  pub itr : ℕ
  pub sent : List Text
  pub received : List Text
  pub dropped : ℕ

-- The state behind the loop that marks all slots as free.
unfoldable pub start : Queue
start = record {
  slots = replicate total_slots free;
  fifo = [];
  producer = at_loop;
  consumer = at_read;
  itr = 1000;
  sent = [];
  received = [];
  dropped = 0;
}

-- The next step of the producer.
unfoldable pub produce : Queue → Option Queue
produce q = elim q.producer [
  | at_loop ↦ some (
      if q.itr == 0
      then record q { producer = ended }
      else record q { itr = q.itr - 1; producer = compare 0 })
  | compare i ↦
      let look : Option Queue = get_elem? q.slots i >>= λ slot.
      some (record q { producer = if text_eq slot free then fill i else compare (i + 1) }) in
      if ltb i total_slots
      then look
      else some (record q { producer = at_loop; dropped = q.dropped + 1 })
  | fill i ↦ write q.slots i (message q.itr) >>= λ slots.
      some (record q { slots = slots; producer = announce i; sent = q.sent ++ message q.itr ∷ [] })
  | announce i ↦ some (record q { fifo = q.fifo ++ i ∷ []; producer = at_loop })
  | ended ↦ some q
]

-- The head of the FIFO, and the rest.
abbrev pub pop : List ℕ → Option (ℕ × List ℕ)
pop [] = none
pop (offset ∷ fifo) = some (offset, fifo)

-- The next step of the consumer. While the FIFO is empty it sleeps.
unfoldable pub consume : Queue → Option Queue
consume q = elim q.consumer [
  | at_read ↦ elim (pop q.fifo) [
    | none ↦ some q
    | some (offset, fifo) ↦ some (record q { fifo = fifo; consumer = show offset })
  ]
  | show offset ↦ get_elem? q.slots offset >>= λ slot.
      some (record q { received = q.received ++ slot ∷ []; consumer = release offset })
  | release offset ↦
      write q.slots offset free >>= λ slots. some (record q { slots = slots; consumer = at_read })
]

pub data Process : Type 0 where
  the_producer the_consumer : Process

unfoldable pub run : List Process → Queue → Option Queue
run [] q = some q
run (the_producer ∷ ps) q = produce q >>= run ps
run (the_consumer ∷ ps) q = consume q >>= run ps
