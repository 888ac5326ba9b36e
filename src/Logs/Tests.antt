-- ===== src/Logs/Tests.antt =====
-- Two logs and three servers; the argument is the number of logs.
use cn.Base.{arith, some, ◌≡◌, refl, List, [], ◌∷◌}
use cn.Nfs.Text.{text}
use cn.Logs.{Event, server_starts, server_reads, log_server}
use cn.Logs.Last.{logged_of, log_server-logged_of}

abbrev events : List Event
events =
    server_starts
    ∷ server_reads 0 (text "first")
    ∷ server_starts
    ∷ server_starts
    ∷ server_reads 1 (text "second")
    ∷ server_reads 0 (text "again")
    ∷ []

log_server-logged_of_example : log_server 2 2 events ≡ some (logged_of 2 2 0 events)
log_server-logged_of_example = log_server-logged_of 2 2 events (omega arith) (omega arith)

only_second : logged_of 2 2 0 events ≡ text "second" ∷ []
unfolding logged_of
only_second = refl
