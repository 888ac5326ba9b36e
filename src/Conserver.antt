-- ===== src/Conserver.antt =====
-- end/conserver/server.c: one process polls its socket and its clients. `revents` is POLLIN, which is 1, for a
-- descriptor that has something to read, and 0 otherwise; `accept` gives a descriptor.
pub mod Parity
mod Tests
use cn.Base.{
  ℕ, zero, suc, ◌+◌, ◌%◌, Bool, true, false, ◌&&◌, Option, none, some, List, [], ◌∷◌, ◌++◌, ◌==◌,
  if◌then◌else◌, ltb, length, ◌>>=◌,
}

abbrev pub max_clients : ℕ
max_clients = 5

-- `fdp[i].fd & fdp[i].revents`, as a condition.
unfoldable pub is_selected : ℕ → Bool → Bool
is_selected fd readable = fd % 2 == 1 && readable

-- What `poll` finds: the descriptor that `accept` would return, if a client waits, and which of the entries
-- fdp[1], fdp[2], ... are readable.
pub record Round : Type 0 where
  pub waiting : Option ℕ
  pub readable : List Bool

-- The loop over i: the descriptors that are sent an answer.
unfoldable pub answer_clients : List ℕ → List Bool → List ℕ
unfolding is_selected
answer_clients [] flags = []
answer_clients (fd ∷ fdp) [] = []
answer_clients (fd ∷ fdp) (readable ∷ flags) =
    let rest = answer_clients fdp flags in if is_selected fd readable then fd ∷ rest else rest

-- A round, for the descriptors in fdp[1], ..., fdp[client_count-1], of which there are `count`: the descriptors
-- afterwards and those that are sent an answer, or `none` where a descriptor is written behind the array.
unfoldable pub poll_round : ℕ → ℕ → List ℕ → Round → Option (List ℕ × List ℕ)
unfolding is_selected answer_clients
poll_round sfd count fdp r = by_waiting r.waiting
  where
    by_waiting : Option ℕ → Option (List ℕ × List ℕ)
    by_waiting none = some (fdp, answer_clients fdp r.readable)
    by_waiting (some nfd) =
        if is_selected sfd true
        then if ltb count max_clients then some (fdp ++ (nfd ∷ []), []) else none
        else some (fdp, answer_clients fdp r.readable)

-- The endless loop: all that are sent an answer.
unfoldable pub conserver : ℕ → List ℕ → List Round → Option (List ℕ)
unfolding poll_round
conserver sfd fdp [] = some []
conserver sfd fdp (r ∷ rounds) = do
  (fdp', answers) ← poll_round sfd (length fdp) fdp r
  rest ← conserver sfd fdp' rounds
  some (answers ++ rest)
