-- ===== src/Pool/Client.antt =====
-- select_servers/serviceserver/client.c, which asks the pool for a server, and server.c, which prints what it is
-- sent. A message is the text before the zero byte, and a message of the pool fits in its buffer.
pub mod Returned
use cn.Base.{
  ℕ, zero, suc, ◌+◌, Bool, true, false, Option, none, some, List, [], ◌∷◌, ◌++◌, ◌==◌,
  if◌then◌else◌, leb, length, take, ◌>>=◌,
}
use cn.Base.Int.{ℤ, pos, ◌+ℤ◌}
use cn.Nfs.Text.{text, equal, strtok, atoi}
use cn.Decimal.{print_int}

-- What thread_write of mainserver.c writes: "%s%d|%d".
unfoldable pub server_message : ℕ → List ℕ
server_message start = text "serverfifo" ++ (print_int (pos start) ++ (124 ∷ print_int (pos start)))

-- The names of the fifos that thread_read opens for `fd` and `writefd`, and `server_no`.
pub record Session : Type 0 where
  pub fd : Option (List ℕ)
  pub writefd : List ℕ
  pub server_no : ℤ

abbrev pub is_bar : ℕ → Bool
is_bar c = c == 124

abbrev pub is_comma : ℕ → Bool
is_comma c = c == 44

-- `snprintf(buf2,sizeof(buf2),"%s%s",buf,"write")`, where "%s" prints (null) for a null pointer.
abbrev pub write_name : Option (List ℕ) → List ℕ
write_name none = take 19 (text "(null)" ++ text "write")
write_name (some buf) = take 19 (buf ++ text "write")

-- The branch `quit == 1` of thread_read: `fd` and `server_no` as they were if there is no token.
unfoldable pub thread_read : List ℕ → Session
thread_read buftemp = by_bar (strtok is_bar buftemp)
  where
    by_comma : Option (List ℕ) → Option (List ℕ × List ℕ) → Session
    by_comma fd none = record { fd = fd; writefd = write_name none; server_no = pos 0 }
    by_comma fd (some (number, rest)) = record {
      fd = fd;
      writefd = write_name (some number);
      server_no = atoi number +ℤ pos 1;
    }

    by_bar : Option (List ℕ × List ℕ) → Session
    by_bar none = by_comma none none
    by_bar (some (name, rest)) = by_comma (some name) (strtok is_comma rest)

-- The loop of thread_write for the lines that are typed: what is written to which fifo, up to "quit"; `none` where
-- `fgets` writes behind the seven bytes of `message`.
unfoldable pub thread_write : Session → List (List ℕ) → Option (List (Option (List ℕ) × List ℕ))
thread_write s [] = some []
thread_write s (line ∷ lines) =
    let more = (thread_write s lines >>= λ later. some ((s.fd, line) ∷ later)) in
    if leb 7 (length line)
    then none
    else if equal line (text "quit\n")
    then some ((some (text "clientfifo"), take 6 (print_int s.server_no)) ∷ [])
    else more

-- The client, with the pool's answer: the request, and the rest.
unfoldable pub client : List ℕ → List (List ℕ) → Option (List (Option (List ℕ) × List ℕ))
unfolding thread_read thread_write
client buftemp lines = do
  later ← thread_write (thread_read buftemp) lines
  some ((some (text "clientfifo"), text "server") ∷ later)

-- server.c with the argument `argument`: the fifo that it opens, and what it prints of what is written to it.
unfoldable pub server_name : List ℕ → List ℕ
server_name argument = text "serverfifo" ++ print_int (atoi argument)

unfoldable pub service : List ℕ → List (Option (List ℕ) × List ℕ) → List (List ℕ)
unfolding server_name
service argument [] = []
service argument ((none, message) ∷ writes) = service argument writes
service argument ((some name, message) ∷ writes) =
    let later = service argument writes in
    if equal name (server_name argument) then message ∷ later else later
