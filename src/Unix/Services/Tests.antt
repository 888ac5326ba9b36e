-- ===== src/Unix/Services/Tests.antt =====
-- Two clients before `accept` fails, and four.
use cn.Base.{◌≡◌, none, some, List, [], ◌∷◌}
use cn.Base.Int.{ℤ, pos, negsuc}
use cn.Unix.Services.{serve_clients}
use cn.Unix.Services.Threads.{serve_clients-accepted}

abbrev two_accepted : List ℤ
two_accepted = pos 5 ∷ pos 6 ∷ negsuc 0 ∷ pos 7 ∷ []

two_threads : serve_clients two_accepted ≡ some (pos 5 ∷ pos 6 ∷ [])
two_threads = serve_clients-accepted two_accepted

fourth_client : serve_clients (pos 5 ∷ pos 6 ∷ pos 7 ∷ pos 8 ∷ []) ≡ none
fourth_client = serve_clients-accepted (pos 5 ∷ pos 6 ∷ pos 7 ∷ pos 8 ∷ [])
