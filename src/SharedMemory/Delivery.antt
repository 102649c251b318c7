-- ===== src/SharedMemory/Delivery.antt =====
-- Every interleaving of ipc-code/shm-posix-producer.c and shm-posix-consumer.c delivers the messages in order.
use mathlib.Core.List.{append_assoc}
use os333_iit_bombay_labs.Prelude.{
  ℕ, ◌+◌, ◌<◌, ◌≡◌, refl, sym, ap, ◌∙◌, inl, inr, some, List, [], ◌∷◌, ◌++◌, map, length, set, ◌==◌,
  arith, Bool-cases, get_or-set_self, get_or-set_ne, length-set, length-replicate, get_elem?-get_or,
  write-some,
}
use os333_iit_bombay_labs.Prelude.Text.{Text}
use os333_iit_bombay_labs.SharedMemory.{
  total_slots, free, Producer, at_loop, compare, fill, announce, ended, Consumer, at_read, show,
  release, Queue, start, consume, Process, the_producer, the_consumer, run,
}
use os333_iit_bombay_labs.SharedMemory.Invariant.{
  slot_at, filled, to_read, pending, IsFound, IsValid, map-set_other, IsBusy-set_other,
}
use os333_iit_bombay_labs.SharedMemory.Sending.{state, produce_lem}

-- A slot that becomes free leaves the producer's free slot free.
IsFound-release :
    (slots : List Text) (o : ℕ) (p : Producer)
    → o < length slots
    → IsFound slots p
    → IsFound (set slots o free) p
IsFound-release slots o at_loop inside h = tt
IsFound-release slots o (compare i) inside h = tt
IsFound-release slots o (fill i) inside h = (
  h.0,
  elim (Bool-cases (o == i)) [
    | inl same ↦
        let eq : o ≡ i = ground (arith, same) in
        ap (slot_at (set slots o free)) (sym eq) ∙ get_or-set_self slots o free free inside
    | inr other ↦ get_or-set_ne slots o i free free (λ e. ground (arith, other, e)) ∙ h.1
  ],
)
IsFound-release slots o (announce i) inside h = tt
IsFound-release slots o ended inside h = tt

module _ (slots : List Text) (itr : ℕ) (sent received : List Text) (dropped : ℕ) where
  consume_lem :
      (fifo : List ℕ) (p : Producer) (c : Consumer)
      → IsValid (state slots fifo itr sent received dropped p c)
      → (q : Queue) × (consume (state slots fifo itr sent received dropped p c) ≡ some q)
        × IsValid q
  unfolding consume
  consume_lem [] p at_read v = (state slots [] itr sent received dropped p at_read, refl, v)
  consume_lem (o ∷ fifo) p at_read v = (
    state slots fifo itr sent received dropped p (show o),
    refl,
    record {
      page = v.page;
      busy = v.busy;
      distinct = v.distinct;
      target = v.target;
      in_order = v.in_order;
      counted = v.counted;
    },
  )
  consume_lem fifo p (show o) v =
      let inside : o < length slots = omega (arith, v.page, v.busy.0.0) in
      (
        state slots fifo itr sent (received ++ slot_at slots o ∷ []) dropped p (release o),
        rw (get_elem?-get_or slots o free inside) refl,
        record {
          page = v.page;
          busy = v.busy;
          distinct = v.distinct;
          target = v.target;
          in_order =
              append_assoc received (slot_at slots o ∷ []) (map (slot_at slots) (fifo ++ filled p))
              ∙ v.in_order;
          counted = v.counted;
        },
      )
  consume_lem fifo p (release o) v =
      let inside : o < length slots = omega (arith, v.page, v.busy.0.0) in
      let others = v.distinct.0 in
      (
        state (set slots o free) fifo itr sent received dropped p at_read,
        rw (write-some slots o free inside) refl,
        record {
          page = length-set slots o free ∙ v.page;
          busy = IsBusy-set_other slots o free (fifo ++ filled p) others v.busy.1;
          distinct = v.distinct.1;
          target = IsFound-release slots o p inside v.target;
          in_order =
              ap (λ (r : List Text). received ++ r)
                (map-set_other slots o free (fifo ++ filled p) others)
              ∙ v.in_order;
          counted = v.counted;
        },
      )

start-IsValid : IsValid start
unfolding start
start-IsValid = record {
  page = length-replicate total_slots free;
  busy = tt;
  distinct = tt;
  target = tt;
  in_order = refl;
  counted = refl;
}

step_lem :
    (p : Process) (q : Queue)
    → IsValid q
    → (q' : Queue) × ((ps : List Process) → run (p ∷ ps) q ≡ run ps q') × IsValid q'
unfolding run
step_lem the_producer q v =
    let (q', e, v') =
      produce_lem q.slots q.fifo q.itr q.sent q.received q.dropped q.producer q.consumer v in
    (q', λ ps. rw (e) refl, v')
step_lem the_consumer q v =
    let (q', e, v') =
      consume_lem q.slots q.itr q.sent q.received q.dropped q.fifo q.producer q.consumer v in
    (q', λ ps. rw (e) refl, v')

run-IsValid :
    (ps : List Process) (q : Queue) → IsValid q → (q' : Queue) × (run ps q ≡ some q') × IsValid q'
unfolding run
run-IsValid [] q v = (q, refl, v)
run-IsValid (p ∷ ps) q v =
    let (q', e, v') = step_lem p q v in
    let (last, e', done) = run-IsValid ps q' v' in (last, e ps ∙ e', done)

-- Whatever the two programs interleave from the cleared page on, no access leaves the page; the messages printed, with
-- those in the slots whose numbers are still to be read, are the messages written to slots, each once and in order; and
-- of the 1000 iterations each has written one message, has found no free slot, is in progress or is still to come.
pub messages_in_order :
    (ps : List Process)
    → (q : Queue) × (run ps start ≡ some q)
      × (q.received ++ map (slot_at q.slots) (to_read q) ≡ q.sent)
      × (length q.sent + q.dropped + pending q.producer + q.itr ≡ 1000)
messages_in_order ps =
    let (q, e, v) = run-IsValid ps start start-IsValid in (q, e, v.in_order, v.counted)
