-- ===== src/Registry/Tests.antt =====
-- Two services, and clients that ask for the second and for a third one.
use cn.Base.{ℕ, ◌≡◌, refl, [], List, ◌∷◌, arith, some, none, false, true}
use cn.Registry.{loop, blocked}
use cn.Registry.Entries.{holding}
use cn.Nfs.Text.{text, atoi}
use cn.Registry.Services.{Program, server1, server3, connect, bound_port, found}
use cn.Registry.Rounds.{loop_waits_for_client}

abbrev two : List ℕ
two = 8001 ∷ 8002 ∷ []

loop_waits_for_client_example :
    loop 5 false true (holding two) [] (8003 ∷ []) (2 ∷ 3 ∷ [])
    ≡ some (blocked (holding two) (some 8002 ∷ none ∷ []))
loop_waits_for_client_example =
    loop_waits_for_client 4 two (8003 ∷ []) (1 ∷ 2 ∷ []) (omega arith)
      (omega arith, (omega arith, tt)) (omega arith)

-- The third service has been started before the first one, and the client asks for number 1.
abbrev started : List Program
started = server3 ∷ server1 ∷ []

-- There is no third one: the client connects to the port that its buffer held, which is that of server1.
third : found started (text "8001") none ≡ some server1
unfolding connect bound_port atoi
third = refl
