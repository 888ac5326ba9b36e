-- ===== src/SelectServer/Tests.antt =====
-- Three clients in two rounds.
use cn.Base.{ℕ, ◌+◌, ◌≡◌, refl, true, List, [], ◌∷◌, Option, none, some, map, leb, if◌then◌else◌}
use cn.Inetd.{inherited, connection, Table, Client, accept}
use cn.SelectServer.{mainserver}
use cn.SelectServer.Open.{present, all_present, all_new, mainserver_keeps_all}

-- The standard descriptors and three sockets.
abbrev at_start : Table
at_start fd = if leb fd 5 then some (inherited fd) else none

abbrev client : ℕ → Client
client n = record { number = n; nfd = 6 + n; forked = true }

abbrev three : List (List (Option Client))
three = (some (client 0) ∷ none ∷ some (client 1) ∷ []) ∷ (none ∷ some (client 2) ∷ none ∷ []) ∷ []

new_each : all_new at_start (all_present three) ≡ true
unfolding all_present present accept
new_each = refl

mainserver_keeps_all_example :
    map (λ c. (mainserver three at_start).0 c.nfd) (all_present three)
    ≡ map (λ c. some (connection c.number)) (all_present three)
mainserver_keeps_all_example = mainserver_keeps_all three at_start new_each
