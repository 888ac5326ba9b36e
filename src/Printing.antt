-- ===== src/Printing.antt =====
-- unixsockets/printserver/server1.c: a parent that opens a file and sends its descriptor to its child by the functions
-- of Unix/FdPass; then both read from it and print. The two descriptors stand for one open file, and so have one
-- position in it.
pub mod Bytes
pub mod Divided
mod Tests
use cn.Base.{
  ℕ, ◌+◌, Bool, true, false, Option, none, some, List, [], ◌∷◌, ◌++◌, take, drop, length, leb,
  if◌then◌else◌, ◌>>=◌,
}
use cn.Readers.{overwrite, print_text}

pub data Process : Type 0 where
  parent child : Process

-- `scanf`, in one of the two processes.
pub record Turn : Type 0 where
  pub process : Process
  pub nbytes : ℕ

-- The open file, and the buffers of 30 bytes, which nothing is written to before the first `read`.
pub record State : Type 0 where
  pub content : List ℕ
  pub offset : ℕ
  pub parent_buffer : List ℕ
  pub child_buffer : List ℕ

-- What `read` has given, and what is printed of the buffer.
pub record PrintedLine : Type 0 where
  pub process : Process
  pub bytes : List ℕ
  pub line : List ℕ

-- The bytes that `read` takes from the file.
abbrev pub next_bytes : State → ℕ → List ℕ
next_bytes s nbytes = take nbytes (drop s.offset s.content)

abbrev buffer_of : Process → State → List ℕ
buffer_of parent s = s.parent_buffer
buffer_of child s = s.child_buffer

abbrev with_buffer : Process → List ℕ → State → State
with_buffer parent buffer s = record s { parent_buffer = buffer }
with_buffer child buffer s = record s { child_buffer = buffer }

-- One round of the loop of a process. There is no result where `read` writes, or `printf` reads, behind the buffer.
unfoldable pub read_and_print : State → Turn → Option (State × PrintedLine)
read_and_print s turn =
    let bytes = next_bytes s turn.nbytes in
    let buffer = overwrite bytes (buffer_of turn.process s) in
    let printed = print_text buffer >>= λ line. some (
      record (with_buffer turn.process buffer s) { offset = s.offset + length bytes },
      record { process = turn.process; bytes = bytes; line = line },
    ) in
    if leb (length bytes) (length (buffer_of turn.process s)) then printed else none

-- The two endless loops, in any order of their rounds.
unfoldable pub print_turns : State → List Turn → Option (List PrintedLine)
unfolding read_and_print
print_turns s [] = some []
print_turns s (turn ∷ turns) = do
  (s', printed) ← read_and_print s turn
  later ← print_turns s' turns
  some (printed ∷ later)
