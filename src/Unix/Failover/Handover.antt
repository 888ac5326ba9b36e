-- ===== src/Unix/Failover/Handover.antt =====
-- The clients of the server are the clients of its backup.
use cn.Base.{
  ℕ, zero, suc, ◌+◌, ◌-◌, ◌<◌, ◌≤◌, ◌≡◌, refl, ap, ◌∙◌, true, false, some, List, [], ◌∷◌, ◌++◌, map,
  ltb, ◌==◌, length, set, replicate, append-nil, append_assoc, arith, length-append, Bool-cases,
  Returns, inl, inr,
}
use cn.Base.Int.{ℤ, pos, negsuc, eqb_ℤ, ltb_ℤ}
use cn.Unix.FdPass.{send_file_descriptor, recv_file_descriptor, closed}
use cn.Unix.FdPass.Roundtrip.{recv_file_descriptor-sent}
use cn.Unix.Failover.{
  max_clients, Server, idle, next, overrun, accept_client, accept_all, hand_over, Backup, store,
  take_over, thread_caller, begin_backup,
}

-- Descriptors as `accept` returns them to a process that has its standard streams open.
abbrev pub descriptors : List ℕ → List ℤ
descriptors = map (λ n. pos (suc n))

-- The cells of `threads` from `i` on.
abbrev pub cells : ℕ → List ℕ → List ℕ
cells i [] = []
cells i (n ∷ ns) = i ∷ cells (suc i) ns

length-descriptors : (ns : List ℕ) → length (descriptors ns) ≡ length ns
length-descriptors [] = refl
length-descriptors (n ∷ ns) = ap suc (length-descriptors ns)

-- The array holds the clients `fds`, and -1 in the other cells.
abbrev pub serving : List ℤ → List ℕ → Server
serving fds created = record {
  cfd = fds ++ replicate (max_clients - length fds) (negsuc 0);
  clients_no = length fds;
  created = created;
}

set-append :
    (fds : List ℤ) (k : ℕ) (fd : ℤ)
    → set (fds ++ replicate (suc k) (negsuc 0)) (length fds) fd
      ≡ (fds ++ fd ∷ []) ++ replicate k (negsuc 0)
set-append [] k fd = refl
set-append (x ∷ fds) k fd = ap (◌∷◌ x) (set-append fds k fd)

accept_client-serving :
    (fds : List ℤ) (created : List ℕ) (n : ℕ)
    → suc (length fds) < max_clients
    → accept_client (serving fds created) (pos n)
      ≡ next (serving (fds ++ pos n ∷ []) (created ++ suc (length fds) ∷ []))
unfolding accept_client
accept_client-serving fds created n h =
    let before : ltb (length fds) max_clients ≡ true = ground arith in
    let after : ltb (length fds + 1) max_clients ≡ true = ground arith in
    let room : max_clients - length fds ≡ suc (max_clients - (length fds + 1)) = omega arith in
    let count : length fds + 1 ≡ suc (length fds) = omega arith in
    rw (
      before,
      after,
      room,
      set-append fds (max_clients - (length fds + 1)) (pos n),
      length-append fds (pos n ∷ []),
      count,
    )

accept_client-full :
    (fds : List ℤ) (created : List ℕ) (n : ℕ)
    → max_clients ≤ suc (length fds)
    → accept_client (serving fds created) (pos n) ≡ overrun
unfolding accept_client
accept_client-full fds created n h = elim (Bool-cases (ltb (length fds) max_clients)) [
  | inl room ↦ let full : ltb (length fds + 1) max_clients ≡ false = ground arith in rw (room, full)
  | inr none_left ↦ rw none_left
]

accept_all-serving :
    (fds : List ℤ) (created ns : List ℕ)
    → length fds + length ns < max_clients
    → accept_all (next (serving fds created)) (descriptors ns)
      ≡ next (serving (fds ++ descriptors ns) (created ++ cells (suc (length fds)) ns))
accept_all-serving fds created [] h = rw (append-nil fds, append-nil created)
accept_all-serving fds created (n ∷ ns) h =
    let size = length-append fds (pos (suc n) ∷ []) in
    let count : length fds + 1 ≡ suc (length fds) = omega arith in
    ap (λ r. accept_all r (descriptors ns))
      (accept_client-serving fds created (suc n) (omega arith))
    ∙ accept_all-serving (fds ++ pos (suc n) ∷ []) (created ++ suc (length fds) ∷ []) ns
        (omega (arith, size))
    ∙ rw (
      append_assoc fds (pos (suc n) ∷ []) (descriptors ns),
      append_assoc created (suc (length fds) ∷ [])
          (cells (suc (length (fds ++ pos (suc n) ∷ []))) ns),
      size,
      count,
    )

accept_all-stuck : (fds : List ℤ) → accept_all overrun fds ≡ overrun
accept_all-stuck [] = refl
accept_all-stuck (fd ∷ fds) = refl

accept_all-too_many :
    (fds : List ℤ) (created ns : List ℕ)
    → length fds < max_clients
    → max_clients ≤ length fds + length ns
    → accept_all (next (serving fds created)) (descriptors ns) ≡ overrun
accept_all-too_many fds created [] small h = absurd (omega arith)
accept_all-too_many fds created (n ∷ ns) small h =
    elim (Bool-cases (ltb (suc (length fds)) max_clients)) [
      | inl room ↦
          let size = length-append fds (pos (suc n) ∷ []) in
          ap (λ r. accept_all r (descriptors ns))
            (accept_client-serving fds created (suc n) (ground arith))
          ∙ accept_all-too_many (fds ++ pos (suc n) ∷ []) (created ++ suc (length fds) ∷ []) ns
              (ground (arith, size)) (omega (arith, size))
      | inr full ↦
          ap (λ r. accept_all r (descriptors ns))
            (accept_client-full fds created (suc n) (ground arith))
          ∙ accept_all-stuck (descriptors ns)
    ]

is_client : (n : ℕ) → eqb_ℤ (pos (suc n)) (negsuc 0) ≡ false
is_client n = let off : (suc n == 0) ≡ false = ground arith in rw off

hand_over-clients :
    (ns : List ℕ) (k : ℕ)
    → hand_over (descriptors ns ++ replicate k (negsuc 0))
      ≡ map send_file_descriptor (descriptors ns)
unfolding hand_over
hand_over-clients [] zero = refl
hand_over-clients [] (suc k) = refl
hand_over-clients (n ∷ ns) k =
    rw (is_client n) (ap (◌∷◌ (send_file_descriptor (pos (suc n)))) (hand_over-clients ns k))

closed_connection : recv_file_descriptor closed ≡ pos 0
unfolding recv_file_descriptor
closed_connection = refl

store_room :
    (csfd : List ℤ) (fd : ℤ)
    → length csfd < max_clients
    → store (record { csfd = csfd }) fd ≡ some (record { csfd = csfd ++ fd ∷ [] })
store_room csfd fd h = let room : ltb (length csfd) max_clients ≡ true = ground arith in rw room

take_over-clients :
    (rounds : ℕ) (csfd : List ℤ) (ns : List ℕ)
    → length csfd + rounds ≡ max_clients
    → length ns ≤ rounds
    → take_over rounds (record { csfd = csfd }) (map send_file_descriptor (descriptors ns))
      ≡ some (record { csfd = csfd ++ (descriptors ns ++ replicate (rounds - length ns) (pos 0)) })
unfolding take_over
take_over-clients zero csfd [] e h = rw (append-nil csfd)
take_over-clients zero csfd (n ∷ ns) e h = absurd (omega arith)
take_over-clients (suc rounds) csfd [] e h =
    let size = length-append csfd (pos 0 ∷ []) in
    let all : suc rounds - 0 ≡ suc rounds = omega arith in
    let others : rounds - 0 ≡ rounds = omega arith in
    rw (closed_connection, store_room csfd (pos 0) (omega arith))
      (take_over-clients rounds (csfd ++ pos 0 ∷ []) [] (omega (arith, size)) (omega arith)
        ∙ rw (append_assoc csfd (pos 0 ∷ []) (replicate (rounds - 0) (pos 0)), all, others))
take_over-clients (suc rounds) csfd (n ∷ ns) e h =
    let size = length-append csfd (pos (suc n) ∷ []) in
    let rest = descriptors ns ++ replicate (rounds - length ns) (pos 0) in
    let left : suc rounds - suc (length ns) ≡ rounds - length ns = omega arith in
    rw
      (
        recv_file_descriptor-sent (pos (suc n)),
        is_client n,
        store_room csfd (pos (suc n)) (omega arith),
      )
      (take_over-clients rounds (csfd ++ pos (suc n) ∷ []) ns (omega (arith, size)) (omega arith)
        ∙ rw (append_assoc csfd (pos (suc n) ∷ []) rest, left))

thread_caller-clients :
    (ns : List ℕ) (k : ℕ) → thread_caller (descriptors ns ++ replicate k (pos 0)) ≡ descriptors ns
unfolding thread_caller
thread_caller-clients [] zero = refl
thread_caller-clients [] (suc k) = thread_caller-clients [] k
thread_caller-clients (n ∷ ns) k =
    let positive : ltb_ℤ (pos 0) (pos (suc n)) ≡ true = ground arith in
    rw positive (ap (◌∷◌ (pos (suc n))) (thread_caller-clients ns k))

-- With fewer than five clients, the server accepts all of them; and when it is told to stop, the backup
-- creates threads for exactly its clients, in the order in which they came: no write is out of bounds,
-- and the zeros that the backup receives once the connection is closed start no thread.
pub handover_complete :
    (ns : List ℕ)
    → length ns < max_clients
    → (v : Server) × (accept_all (next idle) (descriptors ns) ≡ next v)
      × Returns
          (λ (r : Backup × List ℤ). r.1 ≡ descriptors ns)
          (begin_backup (record { csfd = [] }) (hand_over v.cfd))
unfolding begin_backup
handover_complete ns h =
    let v = serving (descriptors ns) (cells 1 ns) in
    let free = max_clients - length (descriptors ns) in
    let left = max_clients - length ns in
    let taken = take_over-clients max_clients [] ns (omega arith) (omega arith) in
    (
      v,
      accept_all-serving [] [] ns (omega arith),
      rw (hand_over-clients ns free, taken)
          (
            (
              record { csfd = descriptors ns ++ replicate left (pos 0) },
              thread_caller (descriptors ns ++ replicate left (pos 0)),
            ),
            refl,
            thread_caller-clients ns left,
          ),
    )

-- The fifth client, for which the arrays have been declared, makes the server write beyond the array of
-- threads, since the counter is incremented before it is the index of the new thread.
pub accept_all_overruns :
    (ns : List ℕ) → max_clients ≤ length ns → accept_all (next idle) (descriptors ns) ≡ overrun
accept_all_overruns ns h = accept_all-too_many [] [] ns (omega arith) (omega arith)
