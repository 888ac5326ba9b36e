-- ===== src/Unix/Services.antt =====
-- unixsockets/tss: mainserver.c accepts the clients and sends their descriptors to server.c, which starts a thread for
-- each of them.
pub mod Threads
mod Tests
use cn.Base.{ℕ, zero, suc, ◌+◌, Option, none, some, List, [], ◌∷◌, map, ltb, if◌then◌else◌, ◌>>=◌}
use cn.Base.Int.{ℤ, is_negative}
use cn.Unix.FdPass.{Message, Received, got, send_file_descriptor, recv_file_descriptor}

-- `max_clients`, the number of cells of `threads` in server.c.
abbrev pub tss_clients : ℕ
tss_clients = 3

-- The endless loop of mainserver.c, which ends with the first `accept` that fails.
unfoldable pub pass_clients : List ℤ → List Message
pass_clients [] = []
pass_clients (nfd ∷ nfds) =
    let rest = pass_clients nfds in if is_negative nfd then [] else send_file_descriptor nfd ∷ rest

-- The endless loop of server.c, for what `recvmsg` gives: the descriptors for which threads are created. There is no
-- result when the array of the threads is full.
unfoldable pub start_threads : ℕ → List Received → Option (List ℤ)
start_threads clients_no [] = some []
start_threads clients_no (received ∷ later) =
    let rest = start_threads (clients_no + 1) later in
    let created = rest >>= λ fds. some (recv_file_descriptor received ∷ fds) in
    if ltb clients_no tss_clients then created else none

-- The two programs together, for the replies of `accept`; a message arrives with the one byte that was sent.
unfoldable pub serve_clients : List ℤ → Option (List ℤ)
unfolding pass_clients start_threads
serve_clients nfds = start_threads 0 (map (got 1) (pass_clients nfds))
