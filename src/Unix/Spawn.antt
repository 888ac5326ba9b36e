-- ===== src/Unix/Spawn.antt =====
-- mid/multithreaded/server.c: a thread for each client, which reads the descriptor through a pointer to
-- `nfd`, a variable of the loop that accepts the clients. unixsockets/csemulti and unixsockets/bs create
-- their threads in the same way.
pub mod Race
mod Tests
use cn.Base.{
  ℕ, zero, suc, ◌+◌, ◌<◌, ◌≡◌, refl, Bool, true, false, Option, none, some, List, [], ◌∷◌, ◌++◌,
  ltb, if◌then◌else◌,
}
use cn.Base.Int.{ℤ}

abbrev pub max_clients : ℕ
max_clients = 5

-- The cell `nfd` of the loop, the number of threads that are created and have not read it yet,
-- `clients_count`, and the descriptors that threads have taken.
pub record Server : Type 0 where
  pub nfd : ℤ
  pub waiting : ℕ
  pub clients_count : ℕ
  pub serving : List ℤ

abbrev pub initial : ℤ → Server
initial nfd = record { nfd = nfd; waiting = 0; clients_count = 0; serving = [] }

-- What can happen next: the loop accepts a client and creates its thread, or a created thread begins.
pub data Event : Type 0 where
  accepted : ℤ → Event
  begun : Event

-- One round of the loop, with the new descriptor in the same cell; a sixth thread has no cell in `threads`.
unfoldable pub accept_client : Server → ℤ → Option Server
accept_client v nfd =
    if ltb v.clients_count max_clients
    then some (record v { nfd = nfd; waiting = v.waiting + 1; clients_count = v.clients_count + 1 })
    else none

-- The first line of `thread_func`, by any thread that has not done it yet.
unfoldable pub thread_func : Server → Option Server
thread_func v = elim v.waiting [
  | zero ↦ none
  | suc n ↦ some (record v { waiting = n; serving = v.serving ++ v.nfd ∷ [] })
]

unfoldable pub step : Server → Event → Option Server
unfolding accept_client thread_func
step v (accepted nfd) = accept_client v nfd
step v begun = thread_func v
