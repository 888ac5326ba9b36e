-- ===== src/OnDemand.antt =====
-- mid/tss: server.c starts the services service1.c, service2.c and service3.c when a client asks for them, and
-- tells the client the port; client.c connects to it. The loop over i calls `accept` in every round of
-- `select`; as `accept` waits, the clients are served one after the other, as they come.
pub mod Started
mod Tests
use cn.Base.{
  ℕ, zero, suc, ◌+◌, Bool, true, false, Option, none, some, List, [], ◌∷◌, ◌++◌, ◌>>=◌, get_elem?,
  set, take, drop, if◌then◌else◌, leb,
}
use cn.Base.Int.{ℤ, pos, negsuc}
use cn.Nfs.Text.{atoi}
use cn.Decimal.{print_int}

-- `struct service`; the name is the number behind "service".
pub record Service : Type 0 where
  pub port : ℕ
  pub started : Bool

-- `services`, and the numbers of the programs that `execve` was given.
pub record Server : Type 0 where
  pub services : List Service
  pub launched : List ℕ

abbrev pub server_init : Server
server_init = record {
  services =
      record { port = 9000; started = false }
      ∷ record { port = 9001; started = false }
      ∷ record { port = 9002; started = false }
      ∷ [];
  launched = [];
}

-- The branch on `started`: a child process becomes the service, if `fork` succeeds for this one; `execve` succeeds.
-- The service is marked as started in either case.
unfoldable pub start_service : (ℕ → Bool) → Server → ℕ → Service → Server
start_service fork server i s = if s.started then server else record {
  services = set server.services i (record { port = s.port; started = true });
  launched = if fork i then server.launched ++ (i + 1) ∷ [] else server.launched;
}

-- A client with the text that it sends: the server afterwards, and the text that is sent back. There is no
-- result when the number that the text stands for is no index of `services`.
unfoldable pub serve : (ℕ → Bool) → Server → List ℕ → Option (Server × List ℕ)
unfolding start_service
serve fork server servbufer = chosen (atoi servbufer)
  where
    chosen : ℤ → Option (Server × List ℕ)
    chosen (negsuc n) = none
    chosen (pos i) = do
      s ← get_elem? server.services i
      let later = start_service fork server i s
      t ← get_elem? later.services i
      some (later, print_int (pos t.port))

-- The loop of `main`, with the texts that are sent back.
unfoldable pub serve_all : (ℕ → Bool) → Server → List (List ℕ) → Option (Server × List (List ℕ))
unfolding serve
serve_all fork server [] = some (server, [])
serve_all fork server (text ∷ texts) = do
  (later, reply) ← serve fork server text
  (last, replies) ← serve_all fork later texts
  some (last, reply ∷ replies)

-- `port` in service1.c, service2.c and service3.c.
unfoldable pub listens : ℕ → Option ℕ
listens zero = none
listens (suc n) = get_elem? (9000 ∷ 9001 ∷ 9002 ∷ []) n

-- The loop of a service: the connections that get a thread, and those that are closed.
unfoldable pub accept_clients : ℕ → List ℤ → List ℤ × List ℤ
accept_clients clients_no [] = ([], [])
accept_clients clients_no (nfd ∷ later) =
    let full = leb 2 clients_no in
    let (threads, closed) = accept_clients (if full then clients_no else clients_no + 1) later in
    if full then (threads, nfd ∷ closed) else (nfd ∷ threads, closed)
