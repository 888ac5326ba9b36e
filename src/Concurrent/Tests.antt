-- ===== src/Concurrent/Tests.antt =====
-- Clients of the server whose socket is the descriptor 3.
use cn.Base.{ℕ, arith, ◌≡◌, refl, true, List, [], ◌∷◌, none, map}
use cn.Nfs.Text.{text}
use cn.Inetd.{Table}
use cn.Concurrent.{Visit, concurrent}
use cn.Concurrent.Chosen.{all_given, ends, seen, concurrent-all_given, View}

abbrev nothing_open : Table
nothing_open fd = none

abbrev visit : ℕ → List ℕ → Visit
visit number bytes = record {
  client = record { number = number; nfd = 4; forked = true };
  bytes = bytes;
}

-- The fourth client sends nothing, the fifth one an invalid number.
abbrev five_clients : List Visit
five_clients =
    visit 0 (49 ∷ 10 ∷ [])
    ∷ visit 1 (50 ∷ 10 ∷ [])
    ∷ visit 2 (49 ∷ [])
    ∷ visit 3 []
    ∷ visit 4 (51 ∷ 10 ∷ [])
    ∷ visit 5 (49 ∷ 10 ∷ [])
    ∷ []

concurrent-all_given_example :
    seen 3 (concurrent 3 five_clients nothing_open)
    ≡ (all_given none five_clients, ends none five_clients)
concurrent-all_given_example = concurrent-all_given 3 five_clients nothing_open (omega arith) refl

abbrev programs : List View → List (List ℕ)
programs views = map (λ v. v.program) views

four_programs :
    programs (all_given none five_clients)
    ≡ text "./lower" ∷ text "./upper" ∷ text "./lower" ∷ text "./lower" ∷ []
four_programs = refl
