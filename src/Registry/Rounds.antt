-- ===== src/Registry/Rounds.antt =====
-- How the server waits.
use cn.Base.{
  ℕ, zero, suc, ◌+◌, ◌≤◌, ◌<◌, ◌≡◌, ◌∙◌, true, false, Option, some, List, [], ◌∷◌, ◌++◌, ◌-◌, map,
  length, get_elem?, arith, append_assoc, append-nil,
}
use cn.Registry.{max_services, request, blocked, loop}
use cn.Registry.Entries.{holding, get_elem?-holding}

-- The numbers of services.
abbrev pub Numbers : List ℕ → Type 0
Numbers [] = Unit
Numbers (i ∷ is) = (i < max_services) × Numbers is

abbrev pub answers_to : List ℕ → List ℕ → List (Option ℕ)
answers_to ports [] = []
answers_to ports (i ∷ is) = get_elem? ports i ∷ answers_to ports is

request-holding :
    (ports : List ℕ) (i : ℕ)
    → length ports ≤ max_services
    → i < max_services
    → request (holding ports) (suc i) ≡ some (get_elem? ports i)
unfolding request
request-holding ports i h k = get_elem?-holding ports i (max_services - length ports) (omega arith)

loop-blocked :
    (left : ℕ) (ports waiting indices : List ℕ) (answers : List (Option ℕ))
    → length ports ≤ max_services
    → Numbers indices
    → length indices < left
    → loop left false true (holding ports) answers waiting (map suc indices)
      ≡ some (blocked (holding ports) (answers ++ answers_to ports indices))
unfolding loop
loop-blocked zero ports waiting indices answers h n k = absurd (omega arith)
loop-blocked (suc left) ports waiting [] answers h n k = rw (append-nil answers)
loop-blocked (suc left) ports waiting (i ∷ indices) answers h (low, n) k =
    rw (request-holding ports i h low) (
      loop-blocked left ports waiting indices (answers ++ get_elem? ports i ∷ []) h n (omega arith)
      ∙ rw (append_assoc answers (get_elem? ports i ∷ []) (answers_to ports indices)))

-- When `select` says that clients have come, and they are not more than `max_fd`, they are answered; but
-- then the server waits for another client within the loop, and the services that wait are not
-- registered until it comes: the bit of the clients' socket is not cleared.
pub loop_waits_for_client :
    (max_fd : ℕ) (ports waiting indices : List ℕ)
    → length ports ≤ max_services
    → Numbers indices
    → length indices ≤ max_fd
    → loop (max_fd + 1) false true (holding ports) [] waiting (map suc indices)
      ≡ some (blocked (holding ports) (answers_to ports indices))
loop_waits_for_client max_fd ports waiting indices h n k =
    loop-blocked (max_fd + 1) ports waiting indices [] h n (omega arith)
