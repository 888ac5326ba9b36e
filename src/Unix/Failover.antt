-- ===== src/Unix/Failover.antt =====
-- unixsockets/bs: a server that hands all of its clients to a backup server when it is told to stop by
-- SIGUSR1 (server.c), and the backup server (backserver.c).
pub mod Handover
mod Tests
use cn.Base.{
  ℕ, zero, suc, ◌+◌, ◌<◌, ◌≡◌, refl, Bool, true, false, Option, none, some, List, [], ◌∷◌, ◌++◌,
  ◌>>=◌, map, ltb, length, set, replicate, if◌then◌else◌,
}
use cn.Base.Int.{ℤ, pos, negsuc, eqb_ℤ, ltb_ℤ}
use cn.Unix.FdPass.{Message, Received, closed, got, send_file_descriptor, recv_file_descriptor}

abbrev pub max_clients : ℕ
max_clients = 5

-- `cfd`, `clients_no`, and the cells of `threads` that `pthread_create` has written, in order.
pub record Server : Type 0 where
  pub cfd : List ℤ
  pub clients_no : ℕ
  pub created : List ℕ

-- The first loop of `main` of server.c.
abbrev pub idle : Server
idle = record { cfd = replicate max_clients (negsuc 0); clients_no = 0; created = [] }

-- What one round of the accepting loop does: it goes on, the process exits, or it writes beyond one of
-- the arrays `cfd` and `threads`.
pub data Round : Type 0 where
  next : Server → Round
  exited overrun : Round

-- `pthread_create(&threads[clients_no], ...)`, where `clients_no` has already been incremented.
abbrev pub create_thread : Server → Round
create_thread v =
    if ltb v.clients_no max_clients
    then next (record v { created = v.created ++ v.clients_no ∷ [] })
    else overrun

-- One round, for the value that `accept` returns.
unfoldable pub accept_client : Server → ℤ → Round
accept_client v (negsuc n) = exited
accept_client v (pos nfd) =
    if ltb v.clients_no max_clients
    then create_thread
        (record v { cfd = set v.cfd v.clients_no (pos nfd); clients_no = v.clients_no + 1 })
    else overrun

abbrev pub accept_all : Round → List ℤ → Round
accept_all r [] = r
accept_all (next v) (fd ∷ fds) = accept_all (accept_client v fd) fds
accept_all exited (fd ∷ fds) = exited
accept_all overrun (fd ∷ fds) = overrun

-- `handler_func` of server.c, after its signal to the backup: one message for each cell up to -1.
unfoldable pub hand_over : List ℤ → List Message
hand_over [] = []
hand_over (fd ∷ cfd) = if eqb_ℤ fd (negsuc 0) then [] else send_file_descriptor fd ∷ hand_over cfd

-- `csfd` of backserver.c, up to `clients_no`.
pub record Backup : Type 0 where
  pub csfd : List ℤ

-- `csfd[clients_no++] = fd`, `none` beyond the end of the array.
abbrev pub store : Backup → ℤ → Option Backup
store b fd =
    if ltb (length b.csfd) max_clients then some (record b { csfd = b.csfd ++ fd ∷ [] }) else none

-- The loop of `handler_func` of backserver.c over the messages that arrive, with the rounds that are
-- left. The server exits behind its last message, and the connection is closed then.
unfoldable pub take_over : ℕ → Backup → List Message → Option Backup
take_over zero b messages = some b
take_over (suc rounds) b [] =
    let fd = recv_file_descriptor closed in
    if eqb_ℤ fd (negsuc 0) then some b else (store b fd >>= λ next. take_over rounds next [])
take_over (suc rounds) b (m ∷ messages) =
    let fd = recv_file_descriptor (got 0 m) in
    if eqb_ℤ fd (negsuc 0) then some b else (store b fd >>= λ next. take_over rounds next messages)

-- `thread_caller`: the descriptors that a thread is created for.
unfoldable pub thread_caller : List ℤ → List ℤ
thread_caller [] = []
thread_caller (fd ∷ csfd) =
    let rest = thread_caller csfd in if ltb_ℤ (pos 0) fd then fd ∷ rest else rest

-- `handler_func` of backserver.c.
unfoldable pub begin_backup : Backup → List Message → Option (Backup × List ℤ)
begin_backup b messages = take_over max_clients b messages >>= λ b. some (b, thread_caller b.csfd)
