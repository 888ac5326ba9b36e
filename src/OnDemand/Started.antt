-- ===== src/OnDemand/Started.antt =====
-- Which services are started, and what the clients are told.
use cn.Base.{
  drop-nil, ℕ, zero, suc, ◌+◌, ◌-◌, ◌<◌, ◌≡◌, refl, sym, ap, ap₂, subst, ◌∙◌, Bool, true, false,
  ◌||◌, ◌&&◌, Option, none, some, List, [], ◌∷◌, ◌++◌, map, ◌==◌, get_elem?, set, length,
  if◌then◌else◌, arith, Returns, Bool-cases, inl, inr, length-set, take, drop, leb,
}
use cn.Base.Int.{ℤ, pos, bit}
use cn.Nfs.Text.{atoi}
use cn.Decimal.{print_int, atoi-print_int}
use cn.OnDemand.{
  Service, Server, server_init, start_service, serve, serve_all, listens, accept_clients,
}

get_elem?-set :
    (xs : List Service) (i j : ℕ) (v : Service)
    → i < length xs
    → get_elem? (set xs i v) j ≡ (if i == j then some v else get_elem? xs j)
get_elem?-set [] i j v h = absurd (omega arith)
get_elem?-set (x ∷ xs) zero zero v h = refl
get_elem?-set (x ∷ xs) zero (suc j) v h = ground arith
get_elem?-set (x ∷ xs) (suc i) zero v h = ground arith
get_elem?-set (x ∷ xs) (suc i) (suc j) v h = ground (arith, get_elem?-set xs i j v)

-- How often a program was started.
unfoldable pub times : ℕ → List ℕ → ℕ
times n [] = 0
times n (m ∷ ms) = bit (n == m) + times n ms

times-append : (n m : ℕ) (ms : List ℕ) → times n (ms ++ m ∷ []) ≡ times n ms + bit (n == m)
unfolding times
times-append n m [] = omega arith
times-append n m (k ∷ ms) = omega (arith, times-append n m ms)

abbrev cell : ℕ → Bool → Service
cell i started = record { port = 9000 + i; started = started }

-- The services that `f` names are marked as started, and those among them for which `fork` succeeds have been
-- started, once each, and no others.
record Consistent (fork f : ℕ → Bool) (server : Server) : Type 0 where
  size : length server.services ≡ 3
  cells : (j : ℕ) → j < 3 → get_elem? server.services j ≡ some (cell j (f j))
  count : (j : ℕ) → j < 3 → times (j + 1) server.launched ≡ bit (f j && fork j)

server_init-Consistent : (fork : ℕ → Bool) → Consistent fork (λ j. false) server_init
unfolding times
server_init-Consistent fork = record { size = refl; cells = first; count = λ j h. refl }
  where
    first : (j : ℕ) → j < 3 → get_elem? server_init.services j ≡ some (cell j false)
    first zero h = refl
    first (suc zero) h = refl
    first (suc (suc zero)) h = refl
    first (suc (suc (suc j))) h = absurd (omega arith)

abbrev also : ℕ → (ℕ → Bool) → ℕ → Bool
also i f j = (i == j) || f j

also-same : (i : ℕ) (f : ℕ → Bool) → f i ≡ true → (j : ℕ) → also i f j ≡ f j
also-same i f e j = elim (Bool-cases (i == j)) [
  | inl at ↦ let same : i ≡ j = ground (arith, at) in rw at (sym (subst (λ k. f k ≡ true) same e))
  | inr other ↦ rw other refl
]

start_service-Consistent :
    (fork : ℕ → Bool) (server : Server) (f : ℕ → Bool) (i : ℕ)
    → i < 3
    → Consistent fork f server
    → Consistent fork (also i f) (start_service fork server i (cell i (f i)))
unfolding start_service
start_service-Consistent fork server f i h c = elim (Bool-cases (f i)) [
  | inl e ↦ rw e (record {
    size = c.size;
    cells = λ j hj. c.cells j hj ∙ ap (λ b. some (cell j b)) (sym (also-same i f e j));
    count = λ j hj. c.count j hj ∙ ap (λ b. bit (b && fork j)) (sym (also-same i f e j));
  })
  | inr e ↦
      let not_yet : (j : ℕ) → j < 3 → i ≡ j → times (j + 1) server.launched ≡ 0 =
        λ j hj same. c.count j hj ∙ ap (λ b. bit (b && fork j)) (subst (λ k. f k ≡ false) same e) in
      rw e (record {
        size = length-set server.services i (cell i true) ∙ c.size;
        cells = λ j hj.
            get_elem?-set server.services i j (cell i true) (omega (arith, h, c.size))
            ∙ elim (Bool-cases (i == j)) [
              | inl at ↦
                  let same : i ≡ j = ground (arith, at) in rw at (ap (λ k. some (cell k true)) same)
              | inr other ↦ rw other (c.cells j hj)
            ];
        count = λ j hj. elim (Bool-cases (fork i)) [
          | inl ok ↦ rw ok (
              times-append (j + 1) (i + 1) server.launched ∙ elim (Bool-cases (i == j)) [
                | inl at ↦
                    let same : i ≡ j = ground (arith, at) in
                    let forked : fork j ≡ true = subst (λ k. fork k ≡ true) same ok in
                    let twice : (j + 1 == i + 1) ≡ true = ground (arith, same) in
                    rw (at, twice, forked) (omega (arith, not_yet j hj same))
                | inr other ↦
                    let apart : (j + 1 == i + 1) ≡ false = ground (arith, other) in
                    rw (other, apart) (omega (arith, c.count j hj))
              ])
          | inr failed ↦ rw failed (elim (Bool-cases (i == j)) [
            | inl at ↦
                let same : i ≡ j = ground (arith, at) in
                let no_child : fork j ≡ false = subst (λ k. fork k ≡ false) same failed in
                rw (at, no_child) (not_yet j hj same)
            | inr other ↦ rw other (c.count j hj)
          ])
        ];
      })
]

-- A port as the number that `atoi` returns.
abbrev pub as_int : Option ℕ → Option ℤ
as_int none = none
as_int (some n) = some (pos n)

listens-port : (i : ℕ) → i < 3 → listens (i + 1) ≡ some (9000 + i)
unfolding listens
listens-port zero h = refl
listens-port (suc zero) h = refl
listens-port (suc (suc zero)) h = refl
listens-port (suc (suc (suc i))) h = absurd (omega arith)

serve-Consistent :
    (fork : ℕ → Bool) (server : Server) (f : ℕ → Bool) (i : ℕ)
    → i < 3
    → Consistent fork f server
    → Returns
        (λ r. Consistent fork (also i f) r.0 × (some (atoi r.1) ≡ as_int (listens (i + 1))))
        (serve fork server (print_int (pos i)))
unfolding serve
serve-Consistent fork server f i h c =
    let later = start_service fork server i (cell i (f i)) in
    let good = start_service-Consistent fork server f i h c in
    (
      (later, print_int (pos (9000 + i))),
      rw (atoi-print_int (pos i), c.cells i h, good.cells i h) refl,
      (good, rw (listens-port i h) (ap some (atoi-print_int (pos (9000 + i))))),
    )

abbrev pub asked : ℕ → List ℕ → Bool
asked j [] = false
asked j (i ∷ is) = asked j is || (i == j)

-- The indices of `services`.
abbrev pub AllServices : List ℕ → Type 0
AllServices [] = Unit
AllServices (i ∷ is) = (i < 3) × AllServices is

abbrev pub request_text : ℕ → List ℕ
request_text i = print_int (pos i)

or_assoc : (a b c : Bool) → ((a || b) || c) ≡ (a || (b || c))
or_assoc true b c = refl
or_assoc false b c = refl

or_false : (a : Bool) → (a || false) ≡ a
or_false true = refl
or_false false = refl

Consistent-ext :
    {fork f g : ℕ → Bool} (server : Server)
    → ((j : ℕ) → f j ≡ g j)
    → Consistent fork f server
    → Consistent fork g server
Consistent-ext {fork = fork} server e c = record {
  size = c.size;
  cells = λ j h. c.cells j h ∙ ap (λ b. some (cell j b)) (e j);
  count = λ j h. c.count j h ∙ ap (λ b. bit (b && fork j)) (e j);
}

serve_all-Consistent :
    (fork : ℕ → Bool) (is : List ℕ) (server : Server) (f : ℕ → Bool)
    → AllServices is
    → Consistent fork f server
    → Returns
        (λ r.
          Consistent fork (λ j. asked j is || f j) r.0
          × (map (λ text. some (atoi text)) r.1 ≡ map (λ i. as_int (listens (i + 1))) is))
        (serve_all fork server (map request_text is))
unfolding serve_all
serve_all-Consistent fork [] server f h c = ((server, []), refl, (c, refl))
serve_all-Consistent fork (i ∷ is) server f (hi, h) c =
    let ((later, reply), e, (c', told)) = serve-Consistent fork server f i hi c in
    let ((last, replies), e', (c'', all_told)) =
      serve_all-Consistent fork is later (also i f) h c' in
    (
      (last, reply ∷ replies),
      rw (e, e') refl,
      (
        Consistent-ext last (λ j. sym (or_assoc (asked j is) (i == j) (f j))) c'',
        ap₂ ◌∷◌ told all_told,
      ),
    )

-- Clients that ask for services by their indices, in any order and any number of times, are all answered; each
-- is told the port on which the program of its service listens; and the program of every service is started
-- once if a client has asked for it and `fork` succeeds for it, and not at all otherwise: a service whose `fork`
-- fails is never tried again.
pub serve_all-started :
    (fork : ℕ → Bool) (is : List ℕ)
    → AllServices is
    → Returns
        (λ r.
          ((j : ℕ) → j < 3 → times (j + 1) r.0.launched ≡ bit (asked j is && fork j))
          × (map (λ text. some (atoi text)) r.1 ≡ map (λ i. as_int (listens (i + 1))) is))
        (serve_all fork server_init (map request_text is))
serve_all-started fork is h =
    let (r, e, (c, told)) =
      serve_all-Consistent fork is server_init (λ j. false) h (server_init-Consistent fork) in
    (r, e, ((λ j hj. c.count j hj ∙ ap (λ b. bit (b && fork j)) (or_false (asked j is))), told))

take-nil : (k : ℕ) → take {A = ℤ} k [] ≡ []
take-nil zero = refl
take-nil (suc k) = refl

accept_clients-room :
    (n : ℕ) (fds : List ℤ) → accept_clients n fds ≡ (take (2 - n) fds, drop (2 - n) fds)
unfolding accept_clients
accept_clients-room n [] = ap₂ (λ a b. (a, b)) (sym (take-nil (2 - n))) (sym (drop-nil (2 - n)))
accept_clients-room n (fd ∷ fds) = elim (Bool-cases (leb 2 n)) [
  | inl full ↦
      let none_left : 2 - n ≡ 0 = ground (arith, full) in
      rw (full, accept_clients-room n fds, none_left) refl
  | inr room ↦
      let left : 2 - n ≡ suc (2 - (n + 1)) = ground (arith, room) in
      rw (room, left, accept_clients-room (n + 1) fds) refl
]

-- A service gives threads to the first two clients and closes the connections of all later ones.
pub accept_clients-two : (fds : List ℤ) → accept_clients 0 fds ≡ (take 2 fds, drop 2 fds)
accept_clients-two fds = accept_clients-room 0 fds
