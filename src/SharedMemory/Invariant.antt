-- ===== src/SharedMemory/Invariant.antt =====
-- Which slots of ipc-code/shm-posix-producer.c and shm-posix-consumer.c hold messages, and in which order they are read.
use mathlib.Core.List.{append_assoc, append-nil, map-append}
use os333_iit_bombay_labs.Prelude.{
  ℕ, ◌+◌, ◌<◌, ◌≡◌, ◌≢◌, refl, sym, ap, ◌∙◌, List, [], ◌∷◌, ◌++◌, map, length, get_or, set, arith,
  All, All-append, get_or-set_ne,
}
use os333_iit_bombay_labs.Prelude.Text.{Text}
use os333_iit_bombay_labs.SharedMemory.{
  total_slots, free, message, Producer, at_loop, compare, fill, announce, ended, Consumer, at_read,
  show, release, Queue,
}

abbrev pub slot_at : List Text → ℕ → Text
slot_at slots i = get_or slots i free

-- The slots that the two programs have in hand.
abbrev pub filled : Producer → List ℕ
filled (announce i) = i ∷ []
filled _ = []

abbrev pub held : Consumer → List ℕ
held at_read = []
held (show i) = i ∷ []
held (release i) = i ∷ []

abbrev pub unread : Consumer → List ℕ
unread at_read = []
unread (show i) = i ∷ []
unread (release i) = []

-- The slots in use, in the order in which they are read.
abbrev pub in_use : Queue → List ℕ
in_use q = held q.consumer ++ (q.fifo ++ filled q.producer)

abbrev pub to_read : Queue → List ℕ
to_read q = unread q.consumer ++ (q.fifo ++ filled q.producer)

abbrev pub IsDistinct : List ℕ → Type 0
IsDistinct [] = Unit
IsDistinct (x ∷ xs) = All (λ y. x ≢ y) xs × IsDistinct xs

-- An iteration in progress, which has taken its number and has not sent yet.
abbrev pub pending : Producer → ℕ
pending at_loop = 0
pending (compare _) = 1
pending (fill _) = 1
pending (announce _) = 0
pending ended = 0

-- The slot that the producer is about to write is free.
abbrev pub IsFound : List Text → Producer → Type 0
IsFound slots (fill i) = (i < total_slots) × (slot_at slots i ≡ free)
IsFound slots _ = Unit

-- A slot of the page that holds a message.
abbrev pub IsBusy : List Text → ℕ → Type 0
IsBusy slots i = (i < total_slots) × (slot_at slots i ≢ free)

pub record IsValid (q : Queue) : Type 0 where
  pub page : length q.slots ≡ total_slots
  pub busy : All (IsBusy q.slots) (in_use q)
  pub distinct : IsDistinct (in_use q)
  pub target : IsFound q.slots q.producer
  pub in_order : q.received ++ map (slot_at q.slots) (to_read q) ≡ q.sent
  pub counted : length q.sent + q.dropped + pending q.producer + q.itr ≡ 1000

pub message_not_free : (itr : ℕ) → message itr ≢ free
unfolding message
message_not_free itr e = ground (arith, ap (λ (t : Text). get_or t 0 0) e)

-- A write to another slot is not seen.
pub map-set_other :
    (slots : List Text) (i : ℕ) (t : Text) (xs : List ℕ)
    → All (λ j. i ≢ j) xs
    → map (slot_at (set slots i t)) xs ≡ map (slot_at slots) xs
map-set_other slots i t [] h = refl
map-set_other slots i t (x ∷ xs) h =
    rw (get_or-set_ne slots i x t free h.0, map-set_other slots i t xs h.1) refl

pub IsBusy-set_other :
    (slots : List Text) (i : ℕ) (t : Text) (xs : List ℕ)
    → All (λ j. i ≢ j) xs
    → All (IsBusy slots) xs
    → All (IsBusy (set slots i t)) xs
IsBusy-set_other slots i t [] h b = tt
IsBusy-set_other slots i t (x ∷ xs) h b =
    (rw (get_or-set_ne slots i x t free h.0) b.0, IsBusy-set_other slots i t xs h.1 b.1)

-- A free slot is none of the busy ones.
pub free_apart :
    (slots : List Text) (i : ℕ) (xs : List ℕ)
    → slot_at slots i ≡ free
    → All (IsBusy slots) xs
    → All (λ j. i ≢ j) xs
free_apart slots i [] e b = tt
free_apart slots i (x ∷ xs) e b =
    ((λ q. b.0.1 (ap (slot_at slots) (sym q) ∙ e)), free_apart slots i xs e b.1)

pub IsDistinct-append :
    (xs : List ℕ) (i : ℕ) → All (λ j. i ≢ j) xs → IsDistinct xs → IsDistinct (xs ++ i ∷ [])
IsDistinct-append [] i h d = (tt, tt)
IsDistinct-append (x ∷ xs) i h d = (
  All-append (λ y. x ≢ y) xs (i ∷ []) d.0 ((λ e. h.0 (sym e)), tt),
  IsDistinct-append xs i h.1 d.1,
)

pub read_apart :
    (P : ℕ → Type 0) (c : Consumer) (xs : List ℕ) → All P (held c ++ xs) → All P (unread c ++ xs)
read_apart P at_read xs h = h
read_apart P (show i) xs h = h
read_apart P (release i) xs h = h.1

-- One more slot in use, at the end.
pub at_end : (a b : List ℕ) (i : ℕ) → a ++ (b ++ i ∷ []) ≡ (a ++ (b ++ [])) ++ i ∷ []
at_end a b i = simp (append_assoc, append-nil)

pub one_sent :
    (received sent : List Text) (f : ℕ → Text) (xs : List ℕ) (i : ℕ)
    → received ++ map f xs ≡ sent
    → received ++ map f (xs ++ i ∷ []) ≡ sent ++ f i ∷ []
one_sent received sent f xs i e =
    ap (λ (r : List Text). received ++ r) (map-append f xs (i ∷ []))
    ∙ sym (append_assoc received (map f xs) (f i ∷ []))
    ∙ ap (λ (r : List Text). r ++ f i ∷ []) e
