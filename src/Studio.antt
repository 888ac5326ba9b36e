-- ===== src/Studio.antt =====
-- c137261@nitwstudios: script.c orders actors and sets for a film from director.c; actor.c and studio.c
-- know the ports of the actors and of the sets, which are processes of act.c and set.c that give or refuse
-- permission; producer.c pays those who gave it. A message of 30 bytes is the number that `sprintf` put
-- into it, which `atoi` gets back; the numbers are taken to be non-negative. The descriptor of a connection
-- is named by the port that it leads to. The director waits for each answer, so that the threads of act.c
-- and set.c run one after the other. A write beyond an array, and a message that never comes, are `none`.
pub mod Grants
pub mod Film
mod Tests
use cn.Base.{
  ℕ, zero, suc, ◌+◌, ◌-◌, ◌≡◌, refl, Bool, true, false, not, ◌||◌, ◌&&◌, Option, none, some, List,
  [], ◌∷◌, ◌++◌, ◌>>=◌, map, ltb, leb, ◌==◌, length, take, drop, get_elem?, if◌then◌else◌,
}
use cn.Base.Int.{ℤ, pos}
use cn.Unix.FdPass.{Message, Received, got, closed, send_file_descriptor, recv_file_descriptor}

-- The arrays of the director and of the producer.
abbrev pub max_count : ℕ
max_count = 5

-- The messages of script.c, for the two numbers and the list that the user types.
unfoldable pub script : ℕ → ℕ → List ℕ → List ℕ
script actors sets typed = sets ∷ actors ∷ (take sets typed ++ take actors (drop sets typed))

-- A loop that receives so many numbers.
unfoldable pub read_numbers : ℕ → List ℕ → Option (List ℕ × List ℕ)
read_numbers zero messages = some ([], messages)
read_numbers (suc n) [] = none
read_numbers (suc n) (x ∷ messages) = do (xs, rest) ← read_numbers n messages; some (x ∷ xs, rest)

-- What director.c receives: the two counts, the actors, and the sets.
unfoldable pub read_order : List ℕ → Option (List ℕ × List ℕ)
unfolding read_numbers
read_order [] = none
read_order (actors_count ∷ []) = none
read_order (actors_count ∷ set_count ∷ messages) =
    if not (leb actors_count max_count && leb set_count max_count) then none else do
      (actors, rest) ← read_numbers actors_count messages
      (sets, rest') ← read_numbers set_count rest
      some (actors, sets)

-- `server_init` of actor.c and studio.c.
abbrev pub server_init : ℕ → List ℕ
server_init base = map (λ i. base + i) (0 ∷ 1 ∷ 2 ∷ 3 ∷ [])

abbrev pub actor_ports : List ℕ
actor_ports = server_init 7000

abbrev pub studio_ports : List ℕ
studio_ports = server_init 9000

-- `services[index-1].port`
unfoldable pub lookup : List ℕ → ℕ → Option ℕ
lookup services zero = none
lookup services (suc i) = get_elem? services i

-- `thread_funcmain` of act.c and set.c: the new `available_count`, and the permission.
unfoldable pub thread_funcmain : ℕ → ℕ × Bool
thread_funcmain available_count =
    (available_count + 1, (available_count == 0) || (available_count == 2))

-- The counters of the processes, by their ports.
abbrev pub Company : Type 0
Company = ℕ → ℕ

abbrev pub update : Company → ℕ → ℕ → Company
update c port v p = if port == p then v else c p

-- `threads` of act.c and set.c, which has a cell for each client.
abbrev pub max_threads : ℕ
max_threads = 5

-- A client of the process on a port: `pthread_create(&threads[clients_no++], ...)`, and the thread. The
-- process has counted as many clients as requests.
unfoldable pub connect : Company → ℕ → Option (Company × (ℕ × Bool))
connect c port =
    let (count, permission) = thread_funcmain (c port) in
    if ltb (c port) max_threads then some (update c port count, (port, permission)) else none

-- One request of the director: the port that the index stands for, and the answer of its process.
unfoldable pub ask : List ℕ → Company → ℕ → Option (Company × (ℕ × Bool))
ask services c index = lookup services index >>= connect c

-- `sets_accp[s_a++]=setfd;` if the permission is given.
unfoldable pub enter : List ℕ → ℕ → Bool → Option (List ℕ)
enter accp port true = if ltb (length accp) max_count then some (accp ++ port ∷ []) else none
enter accp port false = some accp

-- The loop of the director over the sets, and the one over the actors.
unfoldable pub ask_all : List ℕ → Company → List ℕ → List ℕ → Option (Company × List ℕ)
ask_all services c accp [] = some (c, accp)
ask_all services c accp (index ∷ indices) = do
  (c', (port, permission)) ← ask services c index
  accp' ← enter accp port permission
  ask_all services c' accp' indices

-- `sets_accp` and `actors_accp` of director.c up to `s_a` and `a_a`, which are set to 0 once, before the
-- loop; and the company.
pub record Director : Type 0 where
  pub sets_accp : List ℕ
  pub actors_accp : List ℕ
  pub company : Company

abbrev pub opening : Director
opening = record { sets_accp = []; actors_accp = []; company = λ port. 0 }

-- What the director sends to the producer.
pub record Contract : Type 0 where
  pub set_count : ℕ
  pub actor_count : ℕ
  pub descriptors : List Message

-- One round of the director.
unfoldable pub direct : Director → List ℕ → Option (Director × Contract)
direct d messages = do
  (actors, sets) ← read_order messages
  (c, sets_accp) ← ask_all studio_ports d.company d.sets_accp sets
  (c', actors_accp) ← ask_all actor_ports c d.actors_accp actors
  some (
    record { sets_accp = sets_accp; actors_accp = actors_accp; company = c' },
    record {
      set_count = length sets_accp;
      actor_count = length actors_accp;
      descriptors = map (λ port. send_file_descriptor (pos port)) (sets_accp ++ actors_accp);
    },
  )

-- A loop of producer.c that receives so many descriptors.
unfoldable pub receive_all : ℕ → List Message → Option (List ℤ × List Message)
receive_all zero messages = some ([], messages)
receive_all (suc n) [] = none
receive_all (suc n) (m ∷ messages) = do
  (fds, rest) ← receive_all n messages
  some (recv_file_descriptor (got 0 m) ∷ fds, rest)

-- One round of producer.c: the descriptors that "payment done" is written to.
unfoldable pub pay : Contract → Option (List ℤ)
unfolding receive_all
pay k = if not (leb k.set_count max_count && leb k.actor_count max_count) then none else do
  (sets, rest) ← receive_all k.set_count k.descriptors
  (actors, rest') ← receive_all k.actor_count rest
  some (sets ++ actors)
