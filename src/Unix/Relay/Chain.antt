-- ===== src/Unix/Relay/Chain.antt =====
-- The servers c, s and e in a row behind tc. Messages on one connection keep their order, and each
-- descriptor is passed on before the next request is taken. When e stops it signals tc, which takes no
-- further request.
use cn.Base.{ℕ, List, [], ◌∷◌, leb, ◌==◌, if◌then◌else◌}
use cn.Base.Int.{ℤ}
use cn.Unix.Relay.{Server, idle, admit, max_c, max_s, Last, running, stopped, admit_last}

pub record System : Type 0 where
  pub c : Server
  pub s : Server
  pub e : Last

abbrev pub initial : System
initial = record { c = idle; s = idle; e = running idle }

-- A descriptor arrives at server e, from tc or from server s.
unfoldable pub to_e : Last → ℤ → Last
to_e (running v) fd = admit_last v fd
to_e (stopped v) fd = stopped v

-- A descriptor arrives at server s, from tc or from server c; a full server sends it on.
unfoldable pub to_s : System → ℤ → System
unfolding to_e
to_s sys fd =
    let v = admit max_s sys.s fd in
    if leb max_s sys.s.clients_no
    then record sys { s = v; e = to_e sys.e fd }
    else record sys { s = v }

-- A descriptor arrives at server c, from tc.
unfoldable pub to_c : System → ℤ → System
unfolding to_s
to_c sys fd =
    let v = admit max_c sys.c fd in
    if leb max_c sys.c.clients_no then to_s (record sys { c = v }) fd else record sys { c = v }

-- The `switch` of tc.c on the service that the client asks for; any other number has no case.
unfoldable pub tc_round : System → ℕ → ℤ → System
tc_round sys serv_no nfd =
    if serv_no == 1
    then to_c sys nfd
    else if serv_no == 2
    then to_s sys nfd
    else if serv_no == 3
    then record sys { e = to_e sys.e nfd }
    else sys

-- The loop of tc.c over the clients that connect. What it leaves are the requests that it did not take.
unfoldable pub tc_run : System → List (ℕ × ℤ) → System × List (ℕ × ℤ)
tc_run sys [] = (sys, [])
tc_run sys ((serv_no, nfd) ∷ requests) = elim sys.e [
  | running v ↦ tc_run (tc_round sys serv_no nfd) requests
  | stopped v ↦ (sys, (serv_no, nfd) ∷ requests)
]
