-- ===== src/Conserver/Parity.antt =====
-- Which clients are ever answered.
use cn.Base.{
  ℕ, ◌%◌, ◌≡◌, refl, sym, ap, Bool, true, false, Option, none, some, List, [], ◌∷◌, ◌++◌, ◌==◌,
  if◌then◌else◌, ltb, length, ◌>>=◌, Bool-cases, inl, inr,
}
use cn.Conserver.{max_clients, is_selected, Round, answer_clients, poll_round, conserver}

abbrev pub is_odd : ℕ → Bool
is_odd fd = fd % 2 == 1

abbrev pub only_odd : List ℕ → List ℕ
only_odd [] = []
only_odd (fd ∷ fds) = if is_odd fd then fd ∷ only_odd fds else only_odd fds

-- The clients that are readable.
unfoldable pub meant_answers : List ℕ → List Bool → List ℕ
meant_answers [] flags = []
meant_answers (fd ∷ fdp) [] = []
meant_answers (fd ∷ fdp) (readable ∷ flags) =
    let rest = meant_answers fdp flags in if readable then fd ∷ rest else rest

-- A round of the server that tests `revents` alone: a client that waits is accepted, or else those that are
-- readable are answered.
unfoldable pub meant_round : List ℕ → Round → Option (List ℕ × List ℕ)
meant_round fdp r = by_waiting r.waiting
  where
    by_waiting : Option ℕ → Option (List ℕ × List ℕ)
    by_waiting none = some (fdp, meant_answers fdp r.readable)
    by_waiting (some nfd) =
        if ltb (length fdp) max_clients then some (fdp ++ (nfd ∷ []), []) else none

unfoldable pub meant_server : List ℕ → List Round → Option (List ℕ)
meant_server fdp [] = some []
meant_server fdp (r ∷ rounds) = do
  (fdp', answers) ← meant_round fdp r
  rest ← meant_server fdp' rounds
  some (answers ++ rest)

answer_clients-only_odd :
    (fdp : List ℕ) (flags : List Bool)
    → answer_clients fdp flags ≡ only_odd (meant_answers fdp flags)
unfolding answer_clients meant_answers is_selected
answer_clients-only_odd [] flags = refl
answer_clients-only_odd (fd ∷ fdp) [] = refl
answer_clients-only_odd (fd ∷ fdp) (true ∷ flags) = elim (Bool-cases (is_odd fd)) [
  | inl odd ↦ rw odd (ap (◌∷◌ fd) (answer_clients-only_odd fdp flags))
  | inr even ↦ rw even (answer_clients-only_odd fdp flags)
]
answer_clients-only_odd (fd ∷ fdp) (false ∷ flags) = elim (Bool-cases (is_odd fd)) [
  | inl odd ↦ rw odd (answer_clients-only_odd fdp flags)
  | inr even ↦ rw even (answer_clients-only_odd fdp flags)
]

only_odd-append : (xs ys : List ℕ) → only_odd (xs ++ ys) ≡ only_odd xs ++ only_odd ys
only_odd-append [] ys = refl
only_odd-append (x ∷ xs) ys = elim (Bool-cases (is_odd x)) [
  | inl odd ↦ rw odd (ap (◌∷◌ x) (only_odd-append xs ys))
  | inr even ↦ rw even (only_odd-append xs ys)
]

-- A result of which the even descriptors are left out.
abbrev pub odd_part : Option (List ℕ) → Option (List ℕ)
odd_part none = none
odd_part (some answers) = some (only_odd answers)

abbrev odd_answers : Option (List ℕ × List ℕ) → Option (List ℕ × List ℕ)
odd_answers none = none
odd_answers (some (fdp, answers)) = some (fdp, only_odd answers)

poll_round-meant_round :
    (sfd : ℕ) (fdp : List ℕ) (r : Round)
    → is_odd sfd ≡ true
    → poll_round sfd (length fdp) fdp r ≡ odd_answers (meant_round fdp r)
unfolding poll_round meant_round is_selected
poll_round-meant_round sfd fdp r odd = by_waiting r.waiting
  where
    by_waiting :
        (w : Option ℕ)
        → poll_round sfd (length fdp) fdp (record { waiting = w; readable = r.readable })
          ≡ odd_answers (meant_round fdp (record { waiting = w; readable = r.readable }))
    by_waiting none = ap (λ answers. some (fdp, answers)) (answer_clients-only_odd fdp r.readable)
    by_waiting (some nfd) = elim (Bool-cases (ltb (length fdp) max_clients)) [
      | inl room ↦ rw (odd, room) refl
      | inr full ↦ rw (odd, full) refl
    ]

odd_part-append :
    (answers : List ℕ) (m : Option (List ℕ))
    → (odd_part m >>= λ rest. some (only_odd answers ++ rest))
      ≡ odd_part (m >>= λ rest. some (answers ++ rest))
odd_part-append answers none = refl
odd_part-append answers (some rest) = ap some (sym (only_odd-append answers rest))

conserver-odd_part :
    (sfd : ℕ) (fdp : List ℕ) (rounds : List Round)
    → is_odd sfd ≡ true
    → conserver sfd fdp rounds ≡ odd_part (meant_server fdp rounds)
unfolding conserver meant_server
conserver-odd_part sfd fdp [] odd = refl
conserver-odd_part sfd fdp (r ∷ rounds) odd =
    rw (poll_round-meant_round sfd fdp r odd)
      (by_round (meant_round fdp r) (λ next. conserver-odd_part sfd next rounds odd))
  where
    by_round :
        (o : Option (List ℕ × List ℕ))
        → ((next : List ℕ) → conserver sfd next rounds ≡ odd_part (meant_server next rounds))
        → (odd_answers o >>= λ p. conserver sfd p.0 rounds >>= λ rest. some (p.1 ++ rest))
          ≡ odd_part (o >>= λ p. meant_server p.0 rounds >>= λ rest. some (p.1 ++ rest))
    by_round none later = refl
    by_round (some (next, answers)) later =
        rw (later next) (odd_part-append answers (meant_server next rounds))

poll_round-even : (sfd : ℕ) (r : Round) → is_odd sfd ≡ false → poll_round sfd 0 [] r ≡ some ([], [])
unfolding poll_round is_selected answer_clients
poll_round-even sfd r even = by_waiting r.waiting
  where
    by_waiting :
        (w : Option ℕ)
        → poll_round sfd 0 [] (record { waiting = w; readable = r.readable }) ≡ some ([], [])
    by_waiting none = refl
    by_waiting (some nfd) = rw even refl

conserver-even :
    (sfd : ℕ) (rounds : List Round) → is_odd sfd ≡ false → conserver sfd [] rounds ≡ some []
unfolding conserver
conserver-even sfd [] even = refl
conserver-even sfd (r ∷ rounds) even =
    rw (poll_round-even sfd r even, conserver-even sfd rounds even) refl

-- Over any number of rounds: if the descriptor of the socket is odd, the server accepts, and overruns its
-- array, as one that tests `revents` alone, and answers those of the clients that this one answers whose
-- descriptors are odd; and if it is even, the server never accepts or answers anyone.
pub conserver-meant_server :
    (sfd : ℕ) (rounds : List Round)
    → conserver sfd [] rounds ≡ (if is_odd sfd then odd_part (meant_server [] rounds) else some [])
conserver-meant_server sfd rounds = elim (Bool-cases (is_odd sfd)) [
  | inl odd ↦ rw odd (conserver-odd_part sfd [] rounds odd)
  | inr even ↦ rw even (conserver-even sfd rounds even)
]
