-- ===== src/Allot/Granted.antt =====
-- Who gets the servers.
use cn.Base.{
  ℕ, ◌+◌, ◌-◌, ◌≡◌, refl, sym, ap, ap₂, subst, ◌∙◌, Bool, true, false, ◌&&◌, Option, none, some,
  List, [], ◌∷◌, ◌++◌, if◌then◌else◌, ltb, map, arith, Bool-cases, inl, inr,
}
use cn.Base.Int.{bit}
use cn.Nfs.Text.{text, equal, equal-path}
use cn.Allot.{
  lower, equal_ignoring_case, Left, Grant, s1_fifo, s2_fifo, allocate, poll_clients, run_rounds,
}

abbrev pub asks_s1 : List ℕ → Bool
asks_s1 buf = equal (map lower buf) (text "s1\n")

abbrev pub asks_s2 : List ℕ → Bool
asks_s2 buf = equal (map lower buf) (text "s2\n")

one_kind : (buf : List ℕ) → asks_s1 buf ≡ true → asks_s2 buf ≡ false
one_kind buf h =
    subst (λ s. equal s (text "s2\n") ≡ false) (sym (equal-path (map lower buf) (text "s1\n") h))
      refl

-- The answer to a message after `a` requests of the first kind and `b` of the second.
abbrev pub answer : Left → ℕ → ℕ → List ℕ → Option Grant
answer l a b buf =
    if asks_s1 buf && ltb a l.n_s1
    then some s1_fifo
    else if asks_s2 buf && ltb b l.n_s2
    then some s2_fifo
    else none

-- The answers for messages in the order in which they are read, after `a` requests of the first kind and `b`
-- of the second: of each kind, the first ones get the servers that there are.
unfoldable pub first_come : Left → ℕ → ℕ → List (Option (List ℕ)) → List (Option Grant)
first_come l a b [] = []
first_come l a b (none ∷ clients) = none ∷ first_come l a b clients
first_come l a b (some buf ∷ clients) =
    answer l a b buf ∷ first_come l (a + bit (asks_s1 buf)) (b + bit (asks_s2 buf)) clients

unfoldable pub requests : (List ℕ → Bool) → List (Option (List ℕ)) → ℕ
requests asks [] = 0
requests asks (none ∷ clients) = requests asks clients
requests asks (some buf ∷ clients) = bit (asks buf) + requests asks clients

-- What is left of `l` after so many requests.
abbrev pub left_after : Left → ℕ → ℕ → Left
left_after l a b = record { n_s1 = l.n_s1 - a; n_s2 = l.n_s2 - b }

abbrev left : ℕ → ℕ → Left
left a b = record { n_s1 = a; n_s2 = b }

some_left : (n a : ℕ) → ltb 0 (n - a) ≡ ltb a n
some_left n a = ground arith

-- One server less is left after a request, if there was one.
one_less : (n a : ℕ) → ltb a n ≡ true → n - a - 1 ≡ n - (a + bit true)
one_less n a h = ground (arith, h)

none_less : (n a : ℕ) → ltb a n ≡ false → n - a ≡ n - (a + bit true)
none_less n a h = ground (arith, h)

same_left : (n a : ℕ) → n - a ≡ n - (a + bit false)
same_left n a = omega arith

allocate-first_come :
    (l : Left) (a b : ℕ) (buf : List ℕ)
    → allocate (left_after l a b) buf
      ≡ (left_after l (a + bit (asks_s1 buf)) (b + bit (asks_s2 buf)), answer l a b buf)
unfolding allocate equal_ignoring_case
allocate-first_come l a b buf = elim (Bool-cases (asks_s1 buf)) [
  | inl one ↦ elim (Bool-cases (ltb a l.n_s1)) [
    | inl room ↦
        rw (one, one_kind buf one, some_left l.n_s1 a, room)
          (ap₂ (λ x y. (left x y, some s1_fifo)) (one_less l.n_s1 a room) (same_left l.n_s2 b))
    | inr full ↦
        rw (one, one_kind buf one, some_left l.n_s1 a, full)
          (ap₂ (λ x y. (left x y, none)) (none_less l.n_s1 a full) (same_left l.n_s2 b))
  ]
  | inr other ↦ elim (Bool-cases (asks_s2 buf)) [
    | inl two ↦ elim (Bool-cases (ltb b l.n_s2)) [
      | inl room ↦
          rw (other, two, some_left l.n_s2 b, room)
            (ap₂ (λ x y. (left x y, some s2_fifo)) (same_left l.n_s1 a) (one_less l.n_s2 b room))
      | inr full ↦
          rw (other, two, some_left l.n_s2 b, full)
            (ap₂ (λ x y. (left x y, none)) (same_left l.n_s1 a) (none_less l.n_s2 b full))
    ]
    | inr neither ↦
        rw (other, neither)
          (ap₂ (λ x y. (left x y, none)) (same_left l.n_s1 a) (same_left l.n_s2 b))
  ]
]

poll_clients-first_come :
    (l : Left) (a b : ℕ) (clients : List (Option (List ℕ)))
    → poll_clients (left_after l a b) clients ≡ (
      left_after l (a + requests asks_s1 clients) (b + requests asks_s2 clients),
      first_come l a b clients,
    )
unfolding poll_clients first_come requests
poll_clients-first_come l a b [] = ap₂ (λ x y. (left_after l x y, [])) (omega arith) (omega arith)
poll_clients-first_come l a b (none ∷ clients) = rw (poll_clients-first_come l a b clients) refl
poll_clients-first_come l a b (some buf ∷ clients) =
    let a' = a + bit (asks_s1 buf) in
    let b' = b + bit (asks_s2 buf) in
    let regroup1 : a + bit (asks_s1 buf) + requests asks_s1 clients
        ≡ a + (bit (asks_s1 buf) + requests asks_s1 clients) =
      omega arith in
    let regroup2 : b + bit (asks_s2 buf) + requests asks_s2 clients
        ≡ b + (bit (asks_s2 buf) + requests asks_s2 clients) =
      omega arith in
    rw (allocate-first_come l a b buf, poll_clients-first_come l a' b' clients, regroup1, regroup2)
      refl

abbrev pub flat {ℓ} : {A : Type ℓ} → List (List A) → List A
flat [] = []
flat (xs ∷ xss) = xs ++ flat xss

first_come-append :
    (l : Left) (a b : ℕ) (xs ys : List (Option (List ℕ)))
    → first_come l a b (xs ++ ys)
      ≡ first_come l a b xs ++ first_come l (a + requests asks_s1 xs) (b + requests asks_s2 xs) ys
unfolding first_come requests
first_come-append l a b [] ys = ap₂ (λ x y. first_come l x y ys) (omega arith) (omega arith)
first_come-append l a b (none ∷ xs) ys = ap (◌∷◌ none) (first_come-append l a b xs ys)
first_come-append l a b (some buf ∷ xs) ys =
    let a' = a + bit (asks_s1 buf) in
    let b' = b + bit (asks_s2 buf) in
    let regroup1 : a + (bit (asks_s1 buf) + requests asks_s1 xs)
        ≡ a + bit (asks_s1 buf) + requests asks_s1 xs =
      omega arith in
    let regroup2 : b + (bit (asks_s2 buf) + requests asks_s2 xs)
        ≡ b + bit (asks_s2 buf) + requests asks_s2 xs =
      omega arith in
    rw (regroup1, regroup2) (ap (◌∷◌ (answer l a b buf)) (first_come-append l a' b' xs ys))

run_rounds-from :
    (l : Left) (a b : ℕ) (rounds : List (List (Option (List ℕ))))
    → flat (run_rounds (left_after l a b) rounds).1 ≡ first_come l a b (flat rounds)
unfolding run_rounds first_come
run_rounds-from l a b [] = refl
run_rounds-from l a b (clients ∷ rounds) =
    let a' = a + requests asks_s1 clients in
    let b' = b + requests asks_s2 clients in
    rw (poll_clients-first_come l a b clients) (
      ap (λ t. first_come l a b clients ++ t) (run_rounds-from l a' b' rounds)
      ∙ sym (first_come-append l a b clients (flat rounds)))

-- Over any number of rounds, in which any of the clients have written messages, the requests of either kind
-- that are read first get the servers of that kind, as many as there are; later ones, and other messages, get
-- none.
pub run_rounds-first_come :
    (l : Left) (rounds : List (List (Option (List ℕ))))
    → flat (run_rounds l rounds).1 ≡ first_come l 0 0 (flat rounds)
run_rounds-first_come l rounds =
    let first : left_after l 0 0 ≡ l = ap₂ left (omega arith) (omega arith) in
    ap (λ k. flat (run_rounds k rounds).1) (sym first) ∙ run_rounds-from l 0 0 rounds
