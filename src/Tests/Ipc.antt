-- ===== src/Tests/Ipc.antt =====
-- The datagram programs and the original programs on a shared page of ipc-code.
use os333_iit_bombay_labs.Prelude.{ℕ, Option, replicate, length-replicate}
use os333_iit_bombay_labs.Ipc.Datagram.{automatic, free}
use os333_iit_bombay_labs.Prelude.{◌≡◌, refl, true, some, [], ◌∷◌, ◌++◌, take}
use os333_iit_bombay_labs.Prelude.Text.{Text, codes, c_string}
use os333_iit_bombay_labs.Echo.{fgets}
use os333_iit_bombay_labs.Echo.Messages.{IsText}
use os333_iit_bombay_labs.Ipc.Datagram.{
  returns, client_main, orig_client_main, server_main, pipe_main,
}
use os333_iit_bombay_labs.Ipc.Datagram.Arrival.{of_file, shows, file_arrives}
use os333_iit_bombay_labs.Ipc.SharedText.{
  size, messages, resize, overwrite, sprintf, write_all, producer_main, consumer_main,
}
use os333_iit_bombay_labs.Ipc.SharedText.Reading.{prints, text_check, has_no_nul, words_so_far}

abbrev letter : Text
letter = codes "dear server"

letter-IsText : IsText letter
unfolding has_no_nul
letter-IsText = text_check letter refl

abbrev sevens : ℕ → Option Text
sevens n = some (replicate n 7)

file_arrives_example :
    (client_main (of_file sevens letter) ≡ (([], some letter), returns 0))
    × (server_main true true (client_main (of_file sevens letter)).0.1
        ≡ (shows (take 255 letter), free automatic))
file_arrives_example =
    file_arrives sevens letter (λ n. (replicate n 7, refl, length-replicate n 7)) letter-IsText

words_so_far_example :
    ((page : Text) × (write_all 0 (take 2 messages) (resize size (codes "what was there before"))
        ≡ some page)
      × (consumer_main true true true page ≡ prints (codes "Studying Operating Systems ")))
    × ((page : Text) × (producer_main true true (codes "what was there before")
          ≡ some (page, record { screen = []; status = 0 }))
        × (consumer_main true true true page ≡ prints (codes "Studying Operating Systems Is Fun!")))
words_so_far_example = words_so_far (codes "what was there before") 1

-- Two writes into a small page.
small_page :
    write_all 0 (codes "ab" ∷ codes "c" ∷ []) (resize 6 (codes "xxxxxxxx"))
    ≡ some (codes "abc" ++ 0 ∷ codes "xx")
unfolding write_all sprintf overwrite resize
small_page = refl

orig_client-main :
    orig_client_main true true (codes "hello\nmore") ≡ (some (codes "hello\n"), returns 0)
unfolding orig_client_main fgets c_string
orig_client-main = refl

pipe-main :
    pipe_main true true
    ≡ (codes "Child process received: Hello from the parent process!\n", returns 0)
unfolding pipe_main c_string
pipe-main = refl
