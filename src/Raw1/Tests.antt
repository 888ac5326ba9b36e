-- ===== src/Raw1/Tests.antt =====
-- A packet whose header is twenty times the same byte, for a buffer that holds the offsets of its cells.
use cn.Base.{ℕ, ◌≡◌, refl, some, List, ◌++◌, replicate}
use cn.Nfs.Text.{text}
use cn.Raw1.{hello_message, receive_raw}
use cn.Raw1.Shifted.{hello_header, receive_raw-hello}

abbrev same_bytes : List ℕ
same_bytes = replicate 20 69

abbrev offsets : ℕ → ℕ
offsets x = x

receive_raw-hello_example :
    receive_raw offsets (same_bytes ++ hello_message 3 0)
    ≡ some (text "Hello", hello_header 3 0 offsets)
receive_raw-hello_example = receive_raw-hello same_bytes 3 0 offsets refl
