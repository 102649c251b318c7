-- ===== src/SharedMemory/Sending.antt =====
-- Each step of ipc-code/shm-posix-producer.c keeps the invariant.
use mathlib.Core.List.{append-nil}
use os333_iit_bombay_labs.Prelude.{
  ℕ, ◌+◌, ◌-◌, ◌<◌, ◌≡◌, ◌≢◌, refl, sym, ap, ◌∙◌, inl, inr, some, List, [], ◌∷◌, ◌++◌, length, set,
  ltb, ◌==◌, arith, Bool-cases, All-append, get_or-set_self, length-set, length-append,
  get_elem?-get_or, write-some,
}
use os333_iit_bombay_labs.Prelude.Text.{Text, text_eq, text_eq_iff}
use os333_iit_bombay_labs.SharedMemory.{
  total_slots, free, message, Producer, at_loop, compare, fill, announce, ended, Consumer, Queue,
  produce,
}
use os333_iit_bombay_labs.SharedMemory.Invariant.{
  slot_at, held, unread, IsBusy, IsValid, message_not_free, map-set_other, IsBusy-set_other,
  free_apart, IsDistinct-append, read_apart, at_end, one_sent,
}

module _ (slots : List Text) (fifo : List ℕ) (itr : ℕ) (sent received : List Text)
    (dropped : ℕ) where
  abbrev pub state : Producer → Consumer → Queue
  state p c = record {
    slots = slots;
    fifo = fifo;
    producer = p;
    consumer = c;
    itr = itr;
    sent = sent;
    received = received;
    dropped = dropped;
  }

  pub produce_lem :
      (p : Producer) (c : Consumer)
      → IsValid (state p c)
      → (q : Queue) × (produce (state p c) ≡ some q) × IsValid q
  unfolding produce
  produce_lem at_loop c v = elim (Bool-cases (itr == 0)) [
    | inl none_left ↦ (
      record (state at_loop c) { producer = ended },
      rw (none_left) refl,
      record {
        page = v.page;
        busy = v.busy;
        distinct = v.distinct;
        target = tt;
        in_order = v.in_order;
        counted = v.counted;
      },
    )
    | inr some_left ↦ (
      record (state at_loop c) { itr = itr - 1; producer = compare 0 },
      rw (some_left) refl,
      record {
        page = v.page;
        busy = v.busy;
        distinct = v.distinct;
        target = tt;
        in_order = v.in_order;
        counted = ground (arith, v.counted);
      },
    )
  ]
  produce_lem (compare i) c v = elim (Bool-cases (ltb i total_slots)) [
    | inl inside ↦
        let less : i < total_slots = ground arith in
        let look = get_elem?-get_or slots i free (omega (arith, v.page)) in
        elim (Bool-cases (text_eq (slot_at slots i) free)) [
          | inl hit ↦ (
            record (state (compare i) c) { producer = fill i },
            rw (inside, look, hit) refl,
            record {
              page = v.page;
              busy = v.busy;
              distinct = v.distinct;
              target = (less, (text_eq_iff (slot_at slots i) free).0 hit);
              in_order = v.in_order;
              counted = v.counted;
            },
          )
          | inr miss ↦ (
            record (state (compare i) c) { producer = compare (i + 1) },
            rw (inside, look, miss) refl,
            record {
              page = v.page;
              busy = v.busy;
              distinct = v.distinct;
              target = tt;
              in_order = v.in_order;
              counted = v.counted;
            },
          )
        ]
    | inr outside ↦ (
      record (state (compare i) c) { producer = at_loop; dropped = dropped + 1 },
      rw (outside) refl,
      record {
        page = v.page;
        busy = v.busy;
        distinct = v.distinct;
        target = tt;
        in_order = v.in_order;
        counted = omega (arith, v.counted);
      },
    )
  ]
  produce_lem (fill i) c v =
      let (less, empty) = v.target in
      let slots' = set slots i (message itr) in
      let inside : i < length slots = omega (arith, v.page) in
      let apart = free_apart slots i (held c ++ (fifo ++ [])) empty v.busy in
      let apart_read = read_apart (λ j. i ≢ j) c (fifo ++ []) apart in
      let written : slot_at slots' i ≡ message itr =
        get_or-set_self slots i (message itr) free inside in
      (
        record (state (fill i) c) {
          slots = slots';
          producer = announce i;
          sent = sent ++ message itr ∷ [];
        },
        rw (write-some slots i (message itr) inside) refl,
        record {
          page = length-set slots i (message itr) ∙ v.page;
          busy = rw (at_end (held c) fifo i) (
              All-append (IsBusy slots') (held c ++ (fifo ++ [])) (i ∷ [])
                (IsBusy-set_other slots i (message itr) (held c ++ (fifo ++ [])) apart v.busy)
                ((less, λ e. message_not_free itr (sym written ∙ e)), tt));
          distinct =
              rw (at_end (held c) fifo i)
                (IsDistinct-append (held c ++ (fifo ++ [])) i apart v.distinct);
          target = tt;
          in_order = rw (at_end (unread c) fifo i) (
              one_sent received sent (slot_at slots') (unread c ++ (fifo ++ [])) i (
                ap (λ (r : List Text). received ++ r)
                  (map-set_other slots i (message itr) (unread c ++ (fifo ++ [])) apart_read)
                ∙ v.in_order)
              ∙ ap (λ (t : Text). sent ++ t ∷ []) written);
          counted = omega (arith, v.counted, length-append sent (message itr ∷ []));
        },
      )
  produce_lem (announce i) c v =
      let same : (fifo ++ i ∷ []) ++ [] ≡ fifo ++ i ∷ [] = append-nil (fifo ++ i ∷ []) in
      (
        record (state (announce i) c) { fifo = fifo ++ i ∷ []; producer = at_loop },
        refl,
        record {
          page = v.page;
          busy = rw (same) v.busy;
          distinct = rw (same) v.distinct;
          target = tt;
          in_order = rw (same) v.in_order;
          counted = v.counted;
        },
      )
  produce_lem ended c v = (state ended c, refl, v)
