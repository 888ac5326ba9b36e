-- ===== src/Registry.antt =====
-- mid/mss/server.c: services announce their ports, and clients ask for the port of a service by its
-- number. The ports and numbers are taken to be non-negative; an access beyond `services` is `none`.
pub mod Entries
pub mod Rounds
pub mod Services
mod Tests
use cn.Base.{
  ℕ, zero, suc, ◌+◌, ◌≡◌, refl, Bool, true, false, Option, none, some, List, [], ◌∷◌, ◌++◌, ◌>>=◌,
  ltb, ◌==◌, length, set, replicate, get_elem?, if◌then◌else◌,
}

abbrev pub max_services : ℕ
max_services = 5

-- `struct service`; the descriptor is not used again.
pub record Service : Type 0 where
  pub port : ℕ
  pub available : Bool

-- `services` and `no_of_services`.
pub record Registry : Type 0 where
  pub services : List Service
  pub no_of_services : ℕ

-- server_init, which `main` does not call; the global array starts with the same zeros.
abbrev pub server_init : Registry
server_init = record {
  services = replicate max_services (record { port = 0; available = false });
  no_of_services = 0;
}

-- A service has connected and sent its port.
unfoldable pub register : Registry → ℕ → Option Registry
register r port =
    if ltb r.no_of_services max_services
    then some (record {
      services = set r.services r.no_of_services (record { port = port; available = true });
      no_of_services = r.no_of_services + 1;
    })
    else none

-- The answer to a client: the port, or `none` when the connection is closed without one.
abbrev pub answer : Service → Option ℕ
answer s = if s.available then some s.port else none

-- A client has asked for service `serv_index`.
unfoldable pub request : Registry → ℕ → Option (Option ℕ)
request r zero = none
request r (suc i) = get_elem? r.services i >>= λ s. some (answer s)

-- How a round behind `select` ends: the server calls `select` again, with the answers so far and the
-- services and clients that still wait; or it waits in `accept` for a client that has not come.
pub data Round : Type 0 where
  next : Registry → List (Option ℕ) → List ℕ → List ℕ → Round
  blocked : Registry → List (Option ℕ) → Round

-- The loop over i, with the rounds that are left; `FD_ISSET` of the two sockets, of which only the one
-- of the services is cleared; and the queues of both, the services by their ports.
unfoldable pub loop : ℕ → Bool → Bool → Registry → List (Option ℕ) → List ℕ → List ℕ → Option Round
loop zero ssfd csfd r answers ports indices = some (next r answers ports indices)
loop (suc left) true csfd r answers [] indices = none
loop (suc left) true csfd r answers (port ∷ ports) indices =
    register r port >>= λ r'. loop left false csfd r' answers ports indices
loop (suc left) false true r answers ports [] = some (blocked r answers)
loop (suc left) false true r answers ports (index ∷ indices) =
    request r index >>= λ a. loop left false true r (answers ++ a ∷ []) ports indices
loop (suc left) false false r answers ports indices = loop left false false r answers ports indices
