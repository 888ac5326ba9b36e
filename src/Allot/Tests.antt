-- ===== src/Allot/Tests.antt =====
-- Two rounds of three clients, with one server of the first kind and two of the second.
use cn.Base.{List, [], ◌∷◌, ◌≡◌, Option, none, some, ℕ}
use cn.Nfs.Text.{text}
use cn.Allot.{Left, run_rounds}
use cn.Allot.Granted.{flat, first_come, run_rounds-first_come}

abbrev servers : Left
servers = record { n_s1 = 1; n_s2 = 2 }

abbrev rounds : List (List (Option (List ℕ)))
rounds =
    (some (text "s1\n") ∷ none ∷ some (text "S2\n") ∷ [])
    ∷ (none ∷ some (text "S1\n") ∷ some (text "hello\n") ∷ [])
    ∷ []

run_rounds-first_come_example :
    flat (run_rounds servers rounds).1 ≡ first_come servers 0 0 (flat rounds)
run_rounds-first_come_example = run_rounds-first_come servers rounds
