-- ===== src/Ipc/SharedText.antt =====
-- ipc-code/shm-posix-producer-orig.c and shm-posix-consumer-orig.c: three words are written behind each other into a
-- shared object of one page, and another program prints the string in it. `ftruncate` gives the object its size.
pub mod Reading
use os333_iit_bombay_labs.Prelude.{
  ℕ, zero, suc, ◌+◌, ◌-◌, Bool, true, false, Option, none, some, List, [], ◌∷◌, ◌++◌, length, ◌==◌,
  if◌then◌else◌, ◌>>=◌,
}
use os333_iit_bombay_labs.Prelude.Text.{Text, codes}

abbrev pub size : ℕ
size = 4096

abbrev pub messages : List Text
messages = codes "Studying " ∷ codes "Operating Systems " ∷ codes "Is Fun!" ∷ []

-- `ftruncate`: bytes that the object did not have are 0.
unfoldable pub resize : ℕ → Text → Text
resize zero object = []
resize (suc n) [] = 0 ∷ resize n []
resize (suc n) (b ∷ object) = b ∷ resize n object

-- Bytes written over the start of a buffer, and `sprintf(ptr + offset, "%s", text)` with its byte 0. `none` writes
-- behind the end.
unfoldable pub overwrite : Text → Text → Option Text
overwrite [] buffer = some buffer
overwrite (b ∷ bytes) [] = none
overwrite (b ∷ bytes) (x ∷ buffer) = overwrite bytes buffer >>= λ rest. some (b ∷ rest)

unfoldable pub sprintf : ℕ → Text → Text → Option Text
sprintf zero text page = overwrite (text ++ 0 ∷ []) page
sprintf (suc offset) text [] = none
sprintf (suc offset) text (x ∷ page) = sprintf offset text page >>= λ rest. some (x ∷ rest)

-- The writes, with `ptr` moved behind each.
unfoldable pub write_all : ℕ → List Text → Text → Option Text
write_all offset [] page = some page
write_all offset (text ∷ texts) page =
    sprintf offset text page >>= λ page'. write_all (offset + length text) texts page'

-- What a program has printed and its status, 255 for -1, as its parent sees it.
pub record Outcome : Type 0 where
  pub screen : Text
  pub status : ℕ

-- The producer, given whether `shm_open` and `mmap` succeed: the object behind it.
unfoldable pub producer_main : Bool → Bool → Text → Option (Text × Outcome)
producer_main false mapped object =
    some (object, record { screen = codes "Map failed\n"; status = 255 })
producer_main true false object =
    some (resize size object, record { screen = codes "Map failed\n"; status = 255 })
producer_main true true object = write_all 0 messages (resize size object) >>= λ page.
    some (page, record { screen = []; status = 0 })

-- `printf("%s", ptr)`: `none` reads behind the end, where no byte is 0.
unfoldable pub string_in : Text → Option Text
string_in [] = none
string_in (b ∷ page) =
    let rest = string_in page >>= λ text. some (b ∷ text) in if b == 0 then some [] else rest

-- The consumer, given whether `shm_open`, `mmap` and `shm_unlink` succeed.
unfoldable pub consumer_main : Bool → Bool → Bool → Text → Option Outcome
consumer_main false mapped unlinked page =
    some (record { screen = codes "shared memory failed\n"; status = 255 })
consumer_main true false unlinked page =
    some (record { screen = codes "Map failed\n"; status = 255 })
consumer_main true true false page = string_in page >>= λ text.
    some (record { screen = text ++ codes "Error removing OS\n"; status = 255 })
consumer_main true true true page =
    string_in page >>= λ text. some (record { screen = text; status = 0 })
