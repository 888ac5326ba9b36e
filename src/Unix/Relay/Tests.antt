-- ===== src/Unix/Relay/Tests.antt =====
-- Three clients at server s, and requests along the whole chain.
use cn.Base.{ℕ, ◌∷◌, [], List, Option, none, some}
use cn.Base.Int.{ℤ, pos}
use cn.Unix.Relay.Chain.{initial, tc_run}
use cn.Unix.Relay.Account.{Served, tc_run_serves}

abbrev rounds : List (Option ℤ × Option ℤ)
rounds = (some (pos 5), none) ∷ (none, none) ∷ (none, some (pos 6)) ∷ (some (pos 7), none) ∷ []

-- The first service three times: one client stays at c, and two go on to s.
abbrev requests : List (ℕ × ℤ)
requests = (1, pos 5) ∷ (1, pos 6) ∷ (4, pos 7) ∷ (1, pos 8) ∷ (3, pos 9) ∷ []

tc_run_serves_example : Served requests (λ x. 0) (tc_run initial requests)
tc_run_serves_example = tc_run_serves requests
