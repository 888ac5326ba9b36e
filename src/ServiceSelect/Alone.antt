-- ===== src/ServiceSelect/Alone.antt =====
-- Every service goes on as if it were alone.
use cn.Base.{
  ℕ, zero, suc, ◌+◌, ◌-◌, ◌≡◌, refl, sym, ap, ◌∙◌, true, some, List, [], ◌∷◌, ◌++◌, map,
  append_assoc, if◌then◌else◌, leb, arith, Bool-cases, inl, inr,
}
use cn.ServiceSelect.{Service, poll_all, select, gather, loop_rounds, serve_rounds}
use cn.ServiceSelect.Polling.{
  take_first, is_socket, distinct, List-cases, take_first-sfd, select-Agrees, poll_services-Agrees,
  poll_all-Cleared,
}

-- A service that takes one client in every round.
abbrev pub alone : ℕ → Service → Service
alone zero s = s
alone (suc rounds) s = alone rounds (take_first (gather s))

distinct-same :
    (f : Service → Service) (services : List Service)
    → ((s : Service) → (f s).sfd ≡ s.sfd)
    → distinct (map f services) ≡ distinct services
distinct-same f [] same = refl
distinct-same f (s ∷ services) same =
    rw (same s, sockets services s.sfd, distinct-same f services same) refl
  where
    sockets :
        (services : List Service) (fd : ℕ) → is_socket fd (map f services) ≡ is_socket fd services
    sockets [] fd = refl
    sockets (s ∷ services) fd = rw (same s, sockets services fd) refl

gather-sfd : (s : Service) → (gather s).sfd ≡ s.sfd
gather-sfd s = elim (List-cases s.coming) [ inl e ↦ rw e refl | inr (cs, rest, e) ↦ rw e refl ]

-- One round, with at least one round of the loop over i.
poll_all-take_first :
    (s : Service) (services : List Service)
    → distinct (s ∷ services) ≡ true
    → poll_all (loop_rounds (s ∷ services)) (s ∷ services) (select (s ∷ services))
      ≡ some (map take_first (s ∷ services))
unfolding poll_all loop_rounds
poll_all-take_first s services h =
    let all = s ∷ services in
    let (left, more) = some_rounds (loop_rounds services) in
    let (readset', polled, cleared, frame) =
      poll_services-Agrees all (select all) h (select-Agrees all h) in
    rw (more, polled) (poll_all-Cleared left (map take_first all) readset' cleared)
  where
    some_rounds :
        (rest : ℕ) → (left : ℕ) × ((if leb rest (s.sfd + 1) then s.sfd + 1 else rest) ≡ suc left)
    some_rounds rest = elim (Bool-cases (leb rest (s.sfd + 1))) [
      | inl e ↦ (s.sfd, rw e (omega arith))
      | inr n ↦ (rest - 1, rw n (ground (arith, n)))
    ]

-- One round of the endless loop, whatever services there are.
one_round :
    (services : List Service)
    → distinct services ≡ true
    → poll_all (loop_rounds services) services (select services) ≡ some (map take_first services)
unfolding poll_all loop_rounds
one_round [] h = refl
one_round (s ∷ services) h = poll_all-take_first s services h

map-alone :
    (rounds : ℕ) (services : List Service)
    → map (alone rounds) (map take_first (map gather services)) ≡ map (alone (suc rounds)) services
map-alone rounds [] = refl
map-alone rounds (s ∷ services) =
    ap (◌∷◌ (alone rounds (take_first (gather s)))) (map-alone rounds services)

-- Services on different sockets are served as if each of them were alone: in every round of `select` each one at
-- which clients wait takes the first of them, `accept` is never called where none waits, and no service keeps the
-- others from theirs.
pub serve_rounds-alone :
    (rounds : ℕ) (services : List Service)
    → distinct services ≡ true
    → serve_rounds rounds services ≡ some (map (alone rounds) services)
unfolding serve_rounds
serve_rounds-alone zero services h = ap some (sym (map_nothing services))
  where
    map_nothing : (services : List Service) → map (alone zero) services ≡ services
    map_nothing [] = refl
    map_nothing (s ∷ services) = ap (◌∷◌ s) (map_nothing services)
serve_rounds-alone (suc rounds) services h =
    let here = map gather services in
    let apart : distinct here ≡ true = distinct-same gather services gather-sfd ∙ h in
    let later : distinct (map take_first here) ≡ true =
      distinct-same take_first here take_first-sfd ∙ apart in
    rw (one_round here apart)
      (serve_rounds-alone rounds (map take_first here) later ∙ ap some (map-alone rounds services))

-- All clients of a service, in the order in which they come.
abbrev concat : List (List ℕ) → List ℕ
concat [] = []
concat (xs ∷ xss) = xs ++ concat xss

abbrev pub clients : Service → List ℕ
clients s = s.accepted ++ (s.waiting ++ concat s.coming)

clients-take_first : (s : Service) → clients (take_first s) ≡ clients s
clients-take_first s = elim (List-cases s.waiting) [
  | inl e ↦ rw e refl
  | inr (c, rest, e) ↦ rw e (append_assoc s.accepted (c ∷ []) (rest ++ concat s.coming))
]

clients-gather : (s : Service) → clients (gather s) ≡ clients s
clients-gather s = elim (List-cases s.coming) [
  | inl e ↦ rw e refl
  | inr (cs, rest, e) ↦ rw e (ap (◌++◌ s.accepted) (append_assoc s.waiting cs (concat rest)))
]

-- A service keeps the order of its clients, and loses none.
pub clients-alone : (rounds : ℕ) (s : Service) → clients (alone rounds s) ≡ clients s
clients-alone zero s = refl
clients-alone (suc rounds) s =
    clients-alone rounds (take_first (gather s)) ∙ clients-take_first (gather s) ∙ clients-gather s
