-- ===== src/Unix/Relay.antt =====
-- unixsockets/csemulti: the servers c, s and e, which serve a few clients each and hand the rest to the
-- next one, and the server tc in front of them. A descriptor that `pthread_create` is called for counts
-- as served; what the new thread reads from its argument is the subject of Unix/Spawn.
pub mod Share
pub mod Chain
pub mod Account
mod Tests
use cn.Base.{
  ℕ, zero, suc, ◌+◌, ◌<◌, ◌≤◌, ◌≡◌, refl, Bool, true, false, Option, none, some, List, [], ◌∷◌,
  ◌++◌, leb, ◌==◌, if◌then◌else◌,
}
use cn.Base.Int.{ℤ}

-- `clients_no`, the descriptors that threads were created for, and those that were sent on.
pub record Server : Type 0 where
  pub clients_no : ℕ
  pub threads : List ℤ
  pub forwarded : List ℤ

abbrev pub idle : Server
idle = record { clients_no = 0; threads = []; forwarded = [] }

-- `max_clients` of c.c, s.c and e.c.
abbrev pub max_c : ℕ
max_c = 1

abbrev pub max_s : ℕ
max_s = 2

abbrev pub max_e : ℕ
max_e = 3

-- One round of c.c, and one branch of the rounds of s.c: a descriptor has been received.
unfoldable pub admit : ℕ → Server → ℤ → Server
admit max v fd =
    if leb max v.clients_no
    then record v { forwarded = v.forwarded ++ fd ∷ [] }
    else record v { clients_no = v.clients_no + 1; threads = v.threads ++ fd ∷ [] }

-- One round of s.c: `poll` on the main server's and on server c's connection. A descriptor stands for a
-- connection that is readable, with what recv_file_descriptor returns on it; the first one is served
-- first, and the other one stays readable.
unfoldable pub s_round : Server → Option ℤ → Option ℤ → Server
unfolding admit
s_round v (some fd) peer = admit max_s v fd
s_round v none (some fd) = admit max_s v fd
s_round v none none = v

-- e.c goes on, or it has sent SIGUSR1 to tc and called `exit(0)`: then `stopped` has the server as it was, and its
-- threads have ended.
pub data Last : Type 0 where
  running : Server → Last
  stopped : Server → Last

-- One round of e.c when a descriptor has been received.
unfoldable pub admit_last : Server → ℤ → Last
admit_last v fd =
    if leb max_e v.clients_no
    then stopped v
    else running (record v { clients_no = v.clients_no + 1; threads = v.threads ++ fd ∷ [] })

unfoldable pub e_round : Last → Option ℤ → Option ℤ → Last
unfolding admit_last
e_round (stopped v) main peer = stopped v
e_round (running v) (some fd) peer = admit_last v fd
e_round (running v) none (some fd) = admit_last v fd
e_round (running v) none none = running v
