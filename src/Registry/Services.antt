-- ===== src/Registry/Services.antt =====
-- mid/mss: the services server1.c, server2.c and server3.c, which register, and client.c, which asks for one. The
-- programs are started one after another, and all have registered before a client comes.
use cn.Base.{ℕ, Option, none, some, List, [], ◌∷◌, ◌>>=◌, map, take, if◌then◌else◌}
use cn.Base.Int.{ℤ, pos, pos_part, eqb_ℤ}
use cn.Nfs.Text.{text, atoi}
use cn.Decimal.{print_int}
use cn.Registry.{Registry, server_init, request}
use cn.Registry.Entries.{register_all}

pub data Program : Type 0 where
  server1 server2 server3 : Program

-- What a service sends to the registry.
unfoldable pub announcement : Program → List ℕ
announcement server1 = text "8001"
announcement server2 = text "8002"
announcement server3 = text "8003"

-- The port that a service binds.
unfoldable pub bound_port : Program → ℕ
bound_port server1 = 8001
bound_port server2 = 8002
bound_port server3 = 8003

-- The registry once these programs have been started, in this order.
unfoldable pub start_services : List Program → Option Registry
unfolding announcement
start_services programs =
    register_all server_init (map (λ p. pos_part (atoi (announcement p))) programs)

-- `connect` to a port: the program that has bound it.
unfoldable pub connect : List Program → ℤ → Option Program
unfolding bound_port
connect [] port = none
connect (p ∷ programs) port =
    let others = connect programs port in if eqb_ℤ (pos (bound_port p)) port then some p else others

-- `atoi(portbuffer)`: what stood in `portbuffer` is still there if the connection is closed without an answer.
unfoldable pub read_port : List ℕ → Option ℕ → ℤ
read_port portbuffer none = atoi portbuffer
read_port portbuffer (some port) = atoi (print_int (pos port))

-- client.c with an argument, of which it sends eight bytes, and what stands in its `portbuffer` at first: the program
-- that it connects to. It connects whether or not a port has come. There is none if nobody has bound that port, or
-- if the server reads behind `services`.
unfoldable pub mss_client : List Program → Registry → List ℕ → List ℕ → Option Program
unfolding connect read_port
mss_client programs r portbuffer argument =
    request r (pos_part (atoi (take 8 argument))) >>= λ answer.
    connect programs (read_port portbuffer answer)

bound_at : Option Program → Option ℕ
bound_at none = none
bound_at (some p) = some (bound_port p)

-- The program that a client connects to, for what is at its place.
abbrev pub found : List Program → List ℕ → Option Program → Option Program
found programs portbuffer none = connect programs (atoi portbuffer)
found programs portbuffer (some p) = some p
