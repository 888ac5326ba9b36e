-- ===== src/Sums/Tests.antt =====
-- Two clients, with the numbers 1, 2 and with 5.
use cn.Base.{◌≡◌, refl, List, [], ◌∷◌, some, map, replicate, arith}
use cn.Base.Int.{ℤ, pos}
use cn.Sums.{addition_session, arraysum_session}
use cn.Sums.Totals.{running, sum, arraysum_session-running}

abbrev calls : List (List ℤ)
calls = (pos 1 ∷ pos 2 ∷ []) ∷ (pos 5 ∷ []) ∷ []

arraysum_session-running_example :
    (addition_session (replicate 128 (pos 0)) calls ≡ some (map sum calls))
    × (arraysum_session (pos 0) (replicate 100 (pos 9)) calls
        ≡ some (running (pos 0) (map sum calls)))
unfolding cn.Base.Int.◌+ℤ◌
arraysum_session-running_example =
    arraysum_session-running (replicate 128 (pos 0)) (replicate 100 (pos 9)) (pos 0) calls refl refl
      (
        omega arith,
        (refl, (refl, tt)),
        (refl, (refl, tt)),
        (omega arith, (refl, tt), (refl, tt), tt),
      )

three_then_eight : running (pos 0) (map sum calls) ≡ pos 3 ∷ pos 8 ∷ []
unfolding cn.Base.Int.◌+ℤ◌
three_then_eight = refl
