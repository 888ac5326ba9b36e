-- ===== src/Udp.antt =====
-- mid/udp: client.c sends what is typed, line by line, and prints the answers; server.c answers with upper case.
-- Datagrams arrive, and `recvfrom` and `sendto` succeed. `toupper` is that of the C locale.
pub mod Raised
pub mod Upper
mod Tests
use cn.Base.{
  ℕ, zero, suc, ◌+◌, ◌-◌, Bool, ◌&&◌, Option, none, some, List, [], ◌∷◌, ◌++◌, take, set, get_or,
  length, leb, if◌then◌else◌, ◌>>=◌,
}
use cn.Readers.{overwrite, before_zero, print_text}

abbrev pub toupper : ℕ → ℕ
toupper c = if leb 97 c && leb c 122 then c - 32 else c

-- The loop over i, with the number of bytes that are left.
unfoldable pub upper_loop : ℕ → ℕ → List ℕ → List ℕ
upper_loop zero i buffer = buffer
upper_loop (suc left) i buffer =
    upper_loop left (i + 1) (set buffer i (toupper (get_or buffer i 0)))

-- One round of the server, with its buffer: the answer, and the buffer after it. For an empty datagram
-- `nBytes-1` is -1, and there is no round of the loop either.
unfoldable pub udp_server : List ℕ → List ℕ → List ℕ × List ℕ
unfolding upper_loop
udp_server buffer datagram =
    let n_bytes = length (take 1024 datagram) in
    let upper = upper_loop (n_bytes - 1) 0 (overwrite (take 1024 datagram) buffer) in
    (take n_bytes upper, upper)

-- `fgets(buffer,1024,stdin)`, for a line that comes with its end.
unfoldable pub fgets : List ℕ → List ℕ → List ℕ
fgets line buffer = overwrite (take 1023 line ++ 0 ∷ []) buffer

-- `nBytes = strlen(buffer) + 1;` and `sendto`
unfoldable pub sent : List ℕ → List ℕ
sent buffer = take (length (before_zero buffer) + 1) buffer

-- What the client prints for each line, with the buffers of the server and of the client.
unfoldable pub udp_session : List ℕ → List ℕ → List (List ℕ) → Option (List (List ℕ))
udp_session server client [] = some []
udp_session server client (line ∷ lines) =
    let client' = fgets line client in
    let (answer, server') = udp_server server (sent client') in
    let client'' = overwrite (take 1024 answer) client' in
    do shown ← print_text client''; later ← udp_session server' client'' lines; some (shown ∷ later)
