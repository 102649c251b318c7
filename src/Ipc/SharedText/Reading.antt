-- ===== src/Ipc/SharedText/Reading.antt =====
-- What the consumer of ipc-code/shm-posix-consumer-orig.c prints between the writes of the producer and after them.
use mathlib.Core.List.{append_assoc, append-nil}
use os333_iit_bombay_labs.Prelude.{
  ℕ, zero, suc, ◌+◌, ◌≤◌, ◌≡◌, refl, ap, ◌∙◌, sym, Bool, true, false, not, ◌&&◌, Option, some, List,
  [], ◌∷◌, ◌++◌, length, take, ◌==◌, arith, ◌>>=◌, length-append,
}
use os333_iit_bombay_labs.Prelude.Text.{Text, codes}
use os333_iit_bombay_labs.Echo.Messages.{IsText, joined}
use os333_iit_bombay_labs.Ipc.SharedText.{
  size, messages, resize, overwrite, sprintf, write_all, Outcome, producer_main, string_in,
  consumer_main,
}

length-resize : (n : ℕ) (object : Text) → length (resize n object) ≡ n
unfolding resize
length-resize zero object = refl
length-resize (suc n) [] = ap suc (length-resize n [])
length-resize (suc n) (b ∷ object) = ap suc (length-resize n object)

-- What fits is written, and the rest stays.
pub overwrite_lem :
    (bytes buffer : Text)
    → length bytes ≤ length buffer
    → (rest : Text) × (overwrite bytes buffer ≡ some (bytes ++ rest))
      × (length bytes + length rest ≡ length buffer)
unfolding overwrite
overwrite_lem [] buffer h = (buffer, refl, omega arith)
overwrite_lem (b ∷ bytes) [] h = absurd (omega arith)
overwrite_lem (b ∷ bytes) (x ∷ buffer) h =
    let (rest, e, n) = overwrite_lem bytes buffer (omega arith) in
    (rest, rw (e) refl, omega (arith, n))

sprintf-append :
    (front text page page' : Text)
    → overwrite (text ++ 0 ∷ []) page ≡ some page'
    → sprintf (length front) text (front ++ page) ≡ some (front ++ page')
unfolding sprintf
sprintf-append [] text page page' e = e
sprintf-append (b ∷ front) text page page' e = rw (sprintf-append front text page page' e) refl

-- The page behind a written text: the front, the text, and the byte 0 before what was there.
sprintf_lem :
    (front text page : Text)
    → length text + 1 ≤ length page
    → (rest : Text) × (sprintf (length front) text (front ++ page)
        ≡ some ((front ++ text) ++ 0 ∷ rest))
      × (length text + (1 + length rest) ≡ length page)
sprintf_lem front text page h =
    let size_of = length-append text (0 ∷ []) in
    let (rest, e, n) = overwrite_lem (text ++ 0 ∷ []) page (omega (arith, size_of)) in
    (
      rest,
      sprintf-append front text page ((text ++ 0 ∷ []) ++ rest) e
          ∙ ap (λ (t : Text). some (front ++ t)) (append_assoc text (0 ∷ []) rest)
          ∙ ap some (sym (append_assoc front text (0 ∷ rest))),
      omega (arith, size_of, n),
    )

-- Texts written behind each other into a page with room for them and a byte 0.
write_all_lem :
    (front : Text) (text : Text) (texts : List Text) (page : Text)
    → length (joined (text ∷ texts)) + 1 ≤ length page
    → (rest : Text) × (write_all (length front) (text ∷ texts) (front ++ page)
        ≡ some ((front ++ joined (text ∷ texts)) ++ 0 ∷ rest))
unfolding write_all
write_all_lem front text [] page h =
    let sizes = length-append text [] in
    let (rest, e, n) = sprintf_lem front text page (omega (arith, sizes)) in
    (rest, rw (e) (ap (λ (t : Text). some ((front ++ t) ++ 0 ∷ rest)) (sym (append-nil text))))
write_all_lem front text (next ∷ texts) page h =
    let sizes = length-append text (joined (next ∷ texts)) in
    let (rest, e, n) = sprintf_lem front text page (omega (arith, sizes)) in
    let (rest', e') =
      write_all_lem (front ++ text) next texts (0 ∷ rest) (omega (arith, n, sizes)) in
    (
      rest',
      ap
            (λ (o : Option Text).
              o >>= λ page'. write_all (length front + length text) (next ∷ texts) page')
            e
          ∙ ap (λ n'. write_all n' (next ∷ texts) ((front ++ text) ++ 0 ∷ rest))
              (sym (length-append front text))
          ∙ e'
          ∙ ap (λ (t : Text). some (t ++ 0 ∷ rest'))
              (append_assoc front text (joined (next ∷ texts))),
    )

pub string_in-append : (t rest : Text) → IsText t → string_in (t ++ 0 ∷ rest) ≡ some t
unfolding string_in
string_in-append [] rest h = refl
string_in-append (b ∷ t) rest h =
    let other : (b == 0) ≡ false = ground (arith, h.0) in
    rw (other, string_in-append t rest h.1) refl

abbrev pub prints : Text → Option Outcome
prints text = some (record { screen = text; status = 0 })

-- The texts written from the start of a page are what the consumer finds.
page_of :
    (text : Text) (texts : List Text) (object : Text)
    → IsText (joined (text ∷ texts))
    → length (joined (text ∷ texts)) + 1 ≤ size
    → (page : Text) × (write_all 0 (text ∷ texts) (resize size object) ≡ some page)
      × (consumer_main true true true page ≡ prints (joined (text ∷ texts)))
unfolding consumer_main
page_of text texts object h fits =
    let whole = joined (text ∷ texts) in
    let room = length-resize size object in
    let (rest, e) = write_all_lem [] text texts (resize size object) (omega (arith, fits, room)) in
    (
      whole ++ 0 ∷ rest,
      e,
      ap (λ (o : Option Text). o >>= λ t. some (record { screen = t; status = 0 }))
          (string_in-append whole rest h),
    )

unfoldable pub has_no_nul : Text → Bool
has_no_nul [] = true
has_no_nul (b ∷ t) = not (b == 0) && has_no_nul t

pub text_check : (t : Text) → has_no_nul t ≡ true → IsText t
unfolding has_no_nul
text_check [] h = tt
text_check (b ∷ t) h = (ground (arith, h), text_check t (ground (arith, h)))

take_nil : (k : ℕ) → take {A = Text} k [] ≡ []
take_nil zero = refl
take_nil (suc k) = refl

words-IsText : (k : ℕ) → IsText (joined (take (suc k) messages))
unfolding has_no_nul
words-IsText zero = text_check (joined (take 1 messages)) refl
words-IsText (suc zero) = text_check (joined (take 2 messages)) refl
words-IsText (suc (suc k)) = rw (take_nil k) (text_check (joined messages) refl)

words_fit : (k : ℕ) → length (joined (take (suc k) messages)) + 1 ≤ size
words_fit zero = omega arith
words_fit (suc zero) = omega arith
words_fit (suc (suc k)) = rw (take_nil k) (omega arith)

-- Whatever the object held, no write is outside the page, between two writes the consumer prints the words written so
-- far, and behind the last one all three, with status 0 for both programs.
pub words_so_far :
    (object : Text) (k : ℕ)
    → ((page : Text) × (write_all 0 (take (suc k) messages) (resize size object) ≡ some page)
        × (consumer_main true true true page ≡ prints (joined (take (suc k) messages))))
      × ((page : Text) × (producer_main true true object
            ≡ some (page, record { screen = []; status = 0 }))
          × (consumer_main true true true page ≡ prints (joined messages)))
unfolding producer_main
words_so_far object k =
    let others = take k (codes "Operating Systems " ∷ codes "Is Fun!" ∷ []) in
    let (page, e, read) =
      page_of (codes "Studying ") others object (words-IsText k) (words_fit k) in
    let all_others = codes "Operating Systems " ∷ codes "Is Fun!" ∷ [] in
    let (last, e', read') =
      page_of (codes "Studying ") all_others object (words-IsText 2) (words_fit 2) in
    ((page, e, read), (last, rw (e') refl, read'))
