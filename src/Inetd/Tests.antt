-- ===== src/Inetd/Tests.antt =====
-- Three services on the descriptors 3, 4 and 5, and two rounds of clients.
use cn.Base.{ℕ, ◌≡◌, refl, true, List, [], ◌∷◌, Option, none, some, map, leb, if◌then◌else◌}
use cn.Inetd.{inherited, Table, Client, open_sockets, inetd}
use cn.Inetd.Children.{view, all_fresh, all_served, inetd-served}

abbrev sockets : List ℕ
sockets = 3 ∷ 4 ∷ 5 ∷ []

-- The descriptors 0, 1 and 2 are open.
abbrev at_start : Table
at_start fd = if leb fd 2 then some (inherited fd) else none

abbrev first_client : Client
first_client = record { number = 10; nfd = 6; forked = true }

abbrev second_client : Client
second_client = record { number = 11; nfd = 6; forked = true }

abbrev clients : List (List (Option Client))
clients = (none ∷ some first_client ∷ none ∷ []) ∷ (some second_client ∷ none ∷ none ∷ []) ∷ []

fresh : all_fresh (open_sockets 0 sockets at_start) clients ≡ true
unfolding open_sockets
fresh = refl

inetd-served_example :
    ((inetd sockets clients at_start).0 ≡ open_sockets 0 sockets at_start)
    × (map (view sockets) (inetd sockets clients at_start).1 ≡ all_served sockets clients)
inetd-served_example = inetd-served sockets clients at_start refl fresh
