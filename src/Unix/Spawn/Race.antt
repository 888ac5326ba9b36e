-- ===== src/Unix/Spawn/Race.antt =====
-- Which clients the threads serve, for each order of the events.
use cn.Base.{
  ℕ, zero, suc, ◌+◌, ◌<◌, ◌≤◌, ◌≡◌, refl, ◌∙◌, true, Option, some, List, [], ◌∷◌, ◌++◌, ◌>>=◌, ltb,
  length, Returns, subst, arith, append_assoc, append-nil,
}
use cn.Base.Int.{ℤ}
use cn.Unix.Spawn.{
  max_clients, Server, initial, Event, accepted, begun, accept_client, thread_func, step,
}

-- The events, one after the other; `none` if one of them cannot happen.
abbrev pub run : Server → List Event → Option Server
run v [] = some v
run v (e ∷ events) = step v e >>= λ next. run next events

-- The order in which every thread begins before the next client is accepted.
abbrev pub in_turn : List ℤ → List Event
in_turn [] = []
in_turn (fd ∷ fds) = accepted fd ∷ begun ∷ in_turn fds

-- The order in which all clients are accepted before a thread begins.
abbrev pub all_begun : ℕ → List Event
all_begun zero = []
all_begun (suc n) = begun ∷ all_begun n

abbrev pub at_once : List ℤ → ℕ → List Event
at_once [] n = all_begun n
at_once (fd ∷ fds) n = accepted fd ∷ at_once fds n

abbrev pub last_of : ℤ → List ℤ → ℤ
last_of fd [] = fd
last_of fd (x ∷ fds) = last_of x fds

abbrev pub copies : ℕ → ℤ → List ℤ
copies zero fd = []
copies (suc n) fd = fd ∷ copies n fd

accept_client-room :
    (v : Server) (fd : ℤ)
    → v.clients_count < max_clients
    → accept_client v fd
      ≡ some (record v { nfd = fd; waiting = v.waiting + 1; clients_count = v.clients_count + 1 })
unfolding accept_client
accept_client-room v fd h =
    let room : ltb v.clients_count max_clients ≡ true = ground arith in rw room

run-in_turn :
    (nfd : ℤ) (k : ℕ) (done fds : List ℤ)
    → k + length fds ≤ max_clients
    → run (record { nfd = nfd; waiting = 0; clients_count = k; serving = done }) (in_turn fds)
      ≡ some (record {
        nfd = last_of nfd fds;
        waiting = 0;
        clients_count = k + length fds;
        serving = done ++ fds;
      })
unfolding step
run-in_turn nfd k done [] h = let all : k + 0 ≡ k = omega arith in rw (append-nil done, all)
run-in_turn nfd k done (fd ∷ fds) h =
    let start : Server = record { nfd = nfd; waiting = 0; clients_count = k; serving = done } in
    let count : k + 1 + length fds ≡ k + suc (length fds) = omega arith in
    rw (accept_client-room start fd (omega arith)) (
      run-in_turn fd (k + 1) (done ++ fd ∷ []) fds (omega arith)
      ∙ rw (count, append_assoc done (fd ∷ []) fds))

run-all_begun :
    (nfd : ℤ) (k n : ℕ) (done : List ℤ)
    → run (record { nfd = nfd; waiting = n; clients_count = k; serving = done }) (all_begun n)
      ≡ some (record { nfd = nfd; waiting = 0; clients_count = k; serving = done ++ copies n nfd })
unfolding step thread_func
run-all_begun nfd k zero done = rw (append-nil done)
run-all_begun nfd k (suc n) done =
    run-all_begun nfd k n (done ++ nfd ∷ []) ∙ rw (append_assoc done (nfd ∷ []) (copies n nfd))

run-at_once :
    (nfd : ℤ) (k n : ℕ) (fds : List ℤ)
    → k + length fds ≤ max_clients
    → run
        (record { nfd = nfd; waiting = n; clients_count = k; serving = [] })
        (at_once fds (n + length fds))
      ≡ some (record {
        nfd = last_of nfd fds;
        waiting = 0;
        clients_count = k + length fds;
        serving = copies (n + length fds) (last_of nfd fds);
      })
unfolding step
run-at_once nfd k n [] h =
    let none_new : n + 0 ≡ n = omega arith in
    let count : k + 0 ≡ k = omega arith in rw (none_new, count) (run-all_begun nfd k n [])
run-at_once nfd k n (fd ∷ fds) h =
    let start : Server = record { nfd = nfd; waiting = n; clients_count = k; serving = [] } in
    let events : n + suc (length fds) ≡ n + 1 + length fds = omega arith in
    let count : k + suc (length fds) ≡ k + 1 + length fds = omega arith in
    rw (accept_client-room start fd (omega arith), events, count)
      (run-at_once fd (k + 1) (n + 1) fds (omega arith))

-- If every thread begins before the next client is accepted, up to five clients are each served by a
-- thread of their own, in the order in which they came.
pub in_turn_serves_all :
    (nfd : ℤ) (fds : List ℤ)
    → length fds ≤ max_clients
    → Returns
        (λ (v : Server). (v.serving ≡ fds) × (v.waiting ≡ 0))
        (run (initial nfd) (in_turn fds))
in_turn_serves_all nfd fds h =
    let after : Server = record {
      nfd = last_of nfd fds;
      waiting = 0;
      clients_count = 0 + length fds;
      serving = [] ++ fds;
    } in
    (after, run-in_turn nfd 0 [] fds (omega arith), (refl, refl))

-- If up to five clients are accepted before the first thread begins, all of their threads serve the last
-- client, and none serves another one.
pub at_once_serves_last :
    (nfd fd : ℤ) (fds : List ℤ)
    → length fds < max_clients
    → Returns
        (λ (v : Server). v.serving ≡ copies (suc (length fds)) (last_of fd fds))
        (run (initial nfd) (at_once (fd ∷ fds) (suc (length fds))))
unfolding step
at_once_serves_last nfd fd fds h =
    let count : 0 + suc (length fds) ≡ suc (length fds) = omega arith in
    let after : Server = record {
      nfd = last_of fd fds;
      waiting = 0;
      clients_count = suc (length fds);
      serving = copies (suc (length fds)) (last_of fd fds);
    } in
    (
      after,
      subst
          (λ n.
            run (initial nfd) (at_once (fd ∷ fds) n)
            ≡ some (record {
              nfd = last_of fd fds;
              waiting = 0;
              clients_count = n;
              serving = copies n (last_of fd fds);
            }))
          count (run-at_once nfd 0 0 (fd ∷ fds) (omega arith)),
      refl,
    )
