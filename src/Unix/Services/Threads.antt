-- ===== src/Unix/Services/Threads.antt =====
-- Which clients get a thread.
use cn.Base.{
  ℕ, suc, ◌+◌, ◌<◌, ◌≤◌, ◌≡◌, refl, ap, Bool, true, false, none, some, List, [], ◌∷◌, ◌++◌, map,
  replicate, length, length-append, length-replicate, leb, ltb, if◌then◌else◌, arith, Bool-cases,
  inl, inr, ◌>>=◌,
}
use cn.Base.Int.{ℤ, is_negative}
use cn.Unix.FdPass.{Received, closed, got, send_file_descriptor, recv_file_descriptor}
use cn.Unix.Services.{tss_clients, pass_clients, start_threads, serve_clients}

-- The clients that `accept` gives before it fails.
abbrev pub accepted : List ℤ → List ℤ
accepted [] = []
accepted (nfd ∷ nfds) = let rest = accepted nfds in if is_negative nfd then [] else nfd ∷ rest

recv-sent : (nfd : ℤ) → recv_file_descriptor (got 1 (send_file_descriptor nfd)) ≡ nfd
unfolding recv_file_descriptor cn.Unix.FdPass.find_rights send_file_descriptor
recv-sent nfd = refl

-- As many threads as there are cells left.
start_threads-map :
    (clients_no : ℕ) (received : List Received)
    → clients_no ≤ tss_clients
    → start_threads clients_no received ≡ (
        if leb (clients_no + length received) tss_clients
        then some (map recv_file_descriptor received)
        else none)
unfolding start_threads
start_threads-map clients_no [] room =
    let fits : leb (clients_no + 0) tss_clients ≡ true = ground (arith, room) in rw fits refl
start_threads-map clients_no (r ∷ received) room = elim (Bool-cases (ltb clients_no tss_clients)) [
  | inl e ↦
      let sum : clients_no + suc (length received) ≡ clients_no + 1 + length received =
        omega arith in
      rw (e, start_threads-map (clients_no + 1) received (ground (arith, e)), sum)
        (by_test (leb (clients_no + 1 + length received) tss_clients))
  | inr n ↦
      let full : leb (clients_no + suc (length received)) tss_clients ≡ false = ground (arith, n) in
      rw (n, full) refl
]
  where
    by_test :
        (b : Bool)
        → ((if b then some (map recv_file_descriptor received) else none) >>= λ fds.
            some (recv_file_descriptor r ∷ fds))
          ≡ (if b then some (recv_file_descriptor r ∷ map recv_file_descriptor received) else none)
    by_test true = refl
    by_test false = refl

received-accepted :
    (nfds : List ℤ) → map recv_file_descriptor (map (got 1) (pass_clients nfds)) ≡ accepted nfds
unfolding pass_clients
received-accepted [] = refl
received-accepted (nfd ∷ nfds) = elim (Bool-cases (is_negative nfd)) [
  | inl e ↦ rw e refl
  | inr n ↦ rw (n, recv-sent nfd, received-accepted nfds) refl
]

length-map_received :
    (nfds : List ℤ) → length (map (got 1) (pass_clients nfds)) ≡ length (accepted nfds)
unfolding pass_clients
length-map_received [] = refl
length-map_received (nfd ∷ nfds) = elim (Bool-cases (is_negative nfd)) [
  | inl e ↦ rw e refl
  | inr n ↦ rw n (ap suc (length-map_received nfds))
]

-- The clients that mainserver.c accepts, up to the first failure, get a thread of server.c each, in their order, as
-- long as there are at most three of them; a fourth one is written behind the array of the threads.
pub serve_clients-accepted :
    (nfds : List ℤ)
    → serve_clients nfds
      ≡ (if leb (length (accepted nfds)) tss_clients then some (accepted nfds) else none)
unfolding serve_clients
serve_clients-accepted nfds =
    let none_yet : 0 + length (accepted nfds) ≡ length (accepted nfds) = omega arith in
    rw
      (
        start_threads-map 0 (map (got 1) (pass_clients nfds)) (omega arith),
        length-map_received nfds,
        received-accepted nfds,
        none_yet,
      )
      refl

-- After mainserver.c has ended, server.c goes on: `recv_file_descriptor` returns 0 at once, a thread is created for
-- the descriptor 0, and the array of the threads is overrun, however few clients there were.
pub start_threads-closed :
    (received : List Received) (k : ℕ)
    → tss_clients < length received + k
    → start_threads 0 (received ++ replicate k closed) ≡ none
start_threads-closed received k h =
    let all = received ++ replicate k closed in
    let full : leb (0 + length all) tss_clients ≡ false =
      ground (arith, length-append received (replicate k closed), length-replicate k closed, h) in
    rw (start_threads-map 0 all (omega arith), full) refl
