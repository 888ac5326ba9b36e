-- ===== src/Studio/Grants.antt =====
-- Which requests are granted: the first and the third of each process.
use cn.Base.{
  ℕ, zero, suc, ◌+◌, ◌-◌, ◌≤◌, ◌<◌, ◌≡◌, refl, ap, sym, subst, Bool, true, false, some, List, [],
  ◌∷◌, ◌++◌, map, ltb, ◌==◌, length, if◌then◌else◌, arith, length-append, append_assoc, append-nil,
  ◌∙◌, Returns, Bool-cases, inl, inr, ◌⊎◌,
}
use cn.Base.Int.{bit}
use cn.Studio.{
  max_count, max_threads, connect, server_init, lookup, thread_funcmain, Company, update, ask,
  enter, ask_all,
}

-- How often a number stands in a list.
abbrev pub count : ℕ → List ℕ → ℕ
count p [] = 0
count p (x ∷ xs) = bit (p == x) + count p xs

-- How many of the first n requests of a process are granted.
abbrev pub grants : ℕ → ℕ
grants zero = 0
grants (suc zero) = 1
grants (suc (suc zero)) = 1
grants (suc (suc (suc n))) = 2

-- The indices that actor.c and studio.c know.
abbrev pub Known : List ℕ → Type 0
Known [] = Unit
Known (i ∷ is) = (1 ≤ i) × (i ≤ 4) × Known is

abbrev pub ports : ℕ → List ℕ → List ℕ
ports base = map (λ i. base + i - 1)

lookup-server_init :
    (base i : ℕ) → 1 ≤ i → i ≤ 4 → lookup (server_init base) i ≡ some (base + i - 1)
unfolding lookup
lookup-server_init base zero h k = absurd (omega arith)
lookup-server_init base (suc zero) h k = ap some (omega arith)
lookup-server_init base (suc (suc zero)) h k = ap some (omega arith)
lookup-server_init base (suc (suc (suc zero))) h k = ap some (omega arith)
lookup-server_init base (suc (suc (suc (suc zero)))) h k = ap some (omega arith)
lookup-server_init base (suc (suc (suc (suc (suc i))))) h k = absurd (omega arith)

thread_funcmain-grants : (n : ℕ) → bit (thread_funcmain n).1 + grants n ≡ grants (n + 1)
unfolding thread_funcmain
thread_funcmain-grants zero = refl
thread_funcmain-grants (suc zero) = refl
thread_funcmain-grants (suc (suc zero)) = refl
thread_funcmain-grants (suc (suc (suc n))) =
    let first : (suc (suc (suc n)) == 0) ≡ false = ground arith in
    let third : (suc (suc (suc n)) == 2) ≡ false = ground arith in
    let next : suc (suc (suc n)) + 1 ≡ suc (suc (suc (suc n))) = omega arith in
    rw (first, third, next)

-- One request for `port`, followed by requests that grant `new` and count `later`.
granted_step :
    (c : Company) (port p : ℕ) (new later : ℕ)
    → new + grants (update c port (c port + 1) p) ≡ grants (update c port (c port + 1) p + later)
    → (if p == port then bit (thread_funcmain (c port)).1 else 0) + new + grants (c p)
      ≡ grants (c p + (bit (p == port) + later))
granted_step c port p new later h = elim (Bool-cases (p == port)) [
  | inl same ↦
      let here : p ≡ port = ground arith in
      let flip : (port == p) ≡ true = ground arith in
      let changed : update c port (c port + 1) p ≡ c p + 1 =
        rw flip (ap (λ q. c q + 1) (sym here)) in
      let later_requests = subst (λ v. new + grants v ≡ grants (v + later)) changed h in
      let granted =
        subst (λ q. bit (thread_funcmain (c port)).1 + grants (c q) ≡ grants (c q + 1)) (sym here)
          (thread_funcmain-grants (c port)) in
      let sum : c p + 1 + later ≡ c p + (1 + later) = omega arith in
      rw same (omega (arith, later_requests, granted, ap grants sum))
  | inr other ↦
      let flip : (port == p) ≡ false = ground arith in
      let unchanged : update c port (c port + 1) p ≡ c p = rw flip in
      let later_requests = subst (λ v. new + grants v ≡ grants (v + later)) unchanged h in
      let sum : c p + (0 + later) ≡ c p + later = omega arith in
      rw other (omega (arith, later_requests, ap grants sum))
]

given_step :
    (b permission : Bool) (new before after : ℕ)
    → permission ≡ true
    → (if b then bit permission else 0) + new + before ≡ after
    → bit b + new + before ≡ after
given_step true permission new before after e h =
    let one : bit permission ≡ 1 = rw e in omega (arith, h, one)
given_step false permission new before after e h = h

refused_step :
    (b permission : Bool) (new before after : ℕ)
    → permission ≡ false
    → (if b then bit permission else 0) + new + before ≡ after
    → new + before ≡ after
refused_step true permission new before after e h =
    let nothing : bit permission ≡ 0 = rw e in omega (arith, h, nothing)
refused_step false permission new before after e h = omega (arith, h)

below : (b : Bool) (n k max : ℕ) → b ≡ true → n + (bit b + k) ≤ max → n < max
below b n k max e h = let one : bit b ≡ 1 = rw e in omega (arith, h, one)

-- What a loop over requests leaves: `new` connections are entered, and the processes have counted.
pub record Granted (base : ℕ) (c : Company) (accp indices : List ℕ) (r : Company × List ℕ)
    : Type 0 where
  pub new : List ℕ
  pub entered : r.1 ≡ accp ++ new
  pub few : length new ≤ length indices
  pub counted : (p : ℕ) → r.0 p ≡ c p + count p (ports base indices)
  pub granted : (p : ℕ) → count p new + grants (c p) ≡ grants (c p + count p (ports base indices))

ask_known :
    (base i : ℕ) (c : Company)
    → 1 ≤ i
    → i ≤ 4
    → c (base + i - 1) < max_threads
    → ask (server_init base) c i
      ≡ some (
        update c (base + i - 1) (c (base + i - 1) + 1),
        (base + i - 1, (thread_funcmain (c (base + i - 1))).1),
      )
unfolding ask connect thread_funcmain
ask_known base i c h k room =
    let free : ltb (c (base + i - 1)) max_threads ≡ true = ground arith in
    rw (lookup-server_init base i h k, free)

update-count : (c : Company) (port p : ℕ) → update c port (c port + 1) p ≡ c p + bit (p == port)
update-count c port p = elim (Bool-cases (p == port)) [
  | inl same ↦
      let here : p ≡ port = ground arith in
      let flip : (port == p) ≡ true = ground arith in rw (flip, same) (ap (λ q. c q + 1) (sym here))
  | inr other ↦
      let flip : (port == p) ≡ false = ground arith in
      let none_more : c p ≡ c p + 0 = omega arith in rw (flip, other) none_more
]

pub ask_all-Granted :
    (base : ℕ) (c : Company) (accp indices : List ℕ)
    → Known indices
    → length accp + length indices ≤ max_count
    → ((p : ℕ) → c p + count p (ports base indices) ≤ max_threads)
    → Returns (Granted base c accp indices) (ask_all (server_init base) c accp indices)
unfolding ask_all enter
ask_all-Granted base c accp [] known h served = (
  (c, accp),
  refl,
  record {
    new = [];
    entered = sym (append-nil accp);
    few = omega arith;
    counted = λ p. omega arith;
    granted =
        λ p. let none_more : c p ≡ c p + 0 = omega arith in omega (arith, ap grants none_more);
  },
)
ask_all-Granted base c accp (i ∷ indices) (low, high, known) h served =
    let port = base + i - 1 in
    let self : (port == port) ≡ true = ground arith in
    let free : c port < max_threads =
      below (port == port) (c port) (count port (ports base indices)) max_threads self
        (served port) in
    let c' = update c port (c port + 1) in
    elim (Bool-cases (thread_funcmain (c port)).1) [
      | inl given ↦
          let room : ltb (length accp) max_count ≡ true = ground arith in
          let (r, e, g) =
            ask_all-Granted base c' (accp ++ port ∷ []) indices known
              (omega (arith, length-append accp (port ∷ [])))
              (λ p. omega (arith, served p, update-count c port p)) in
          rw (ask_known base i c low high free, given, room, e)
            (
              r,
              refl,
              record {
                new = port ∷ g.new;
                entered = g.entered ∙ append_assoc accp (port ∷ []) g.new;
                few = omega (arith, g.few);
                counted = λ p. omega (arith, g.counted p, update-count c port p);
                granted = λ p.
                    given_step (p == port) (thread_funcmain (c port)).1 (count p g.new)
                      (grants (c p))
                      (grants (c p + (bit (p == port) + count p (ports base indices)))) given
                      (granted_step c port p (count p g.new) (count p (ports base indices))
                        (g.granted p));
              },
            )
      | inr refused ↦
          let (r, e, g) =
            ask_all-Granted base c' accp indices known (omega arith)
              (λ p. omega (arith, served p, update-count c port p)) in
          rw (ask_known base i c low high free, refused, e)
            (
              r,
              refl,
              record {
                new = g.new;
                entered = g.entered;
                few = omega (arith, g.few);
                counted = λ p. omega (arith, g.counted p, update-count c port p);
                granted = λ p.
                    refused_step (p == port) (thread_funcmain (c port)).1 (count p g.new)
                      (grants (c p))
                      (grants (c p + (bit (p == port) + count p (ports base indices)))) refused
                      (granted_step c port p (count p g.new) (count p (ports base indices))
                        (g.granted p));
              },
            )
    ]

count_outside :
    (base p : ℕ) (indices : List ℕ)
    → Known indices
    → (p + 1 ≤ base) ⊎ (base + 4 ≤ p)
    → count p (ports base indices) ≡ 0
count_outside base p [] known h = refl
count_outside base p (i ∷ indices) (low, high, known) h =
    let later = count_outside base p indices known h in
    let other : (p == base + i - 1) ≡ false = elim h [
      | inl b ↦ ground arith
      | inr a ↦ ground arith
    ] in
    rw (other, later)

pub count_bounded : (p : ℕ) (xs : List ℕ) → count p xs ≤ length xs
count_bounded p [] = omega arith
count_bounded p (x ∷ xs) = elim (Bool-cases (p == x)) [
  | inl e ↦ rw e (omega (arith, count_bounded p xs))
  | inr e ↦ rw e (omega (arith, count_bounded p xs))
]

length-ports : (base : ℕ) (xs : List ℕ) → length (ports base xs) ≡ length xs
length-ports base [] = refl
length-ports base (x ∷ xs) = ap suc (length-ports base xs)

-- No process is both a set and an actor.
pub count_few :
    (p : ℕ) (sets actors : List ℕ)
    → Known sets
    → Known actors
    → length sets ≤ max_threads
    → length actors ≤ max_threads
    → count p (ports 9000 sets) + count p (ports 7000 actors) ≤ max_threads
count_few p sets actors known known' s a = elim (Bool-cases (ltb p 9000)) [
  | inl low ↦
      let no_set = count_outside 9000 p sets known (inl (ground arith)) in
      omega (arith, no_set, count_bounded p (ports 7000 actors), length-ports 7000 actors)
  | inr high ↦
      let no_actor = count_outside 7000 p actors known' (inr (ground arith)) in
      omega (arith, no_actor, count_bounded p (ports 9000 sets), length-ports 9000 sets)
]
