-- ===== src/Unix/Relay/Account.antt =====
-- Every client is accounted for along the chain.
use cn.Base.{
  ℕ, ◌+◌, ◌≡◌, refl, ap, List, [], ◌∷◌, ◌++◌, leb, ◌==◌, if◌then◌else◌, arith, length-append,
  Bool-cases, inl, inr,
}
use cn.Base.Int.{ℤ, eqb_ℤ, bit, occurrences, occurrences-append}
use cn.Unix.Relay.{Server, idle, admit, max_c, max_s, max_e, Last, running, stopped, admit_last}
use cn.Unix.Relay.Share.{IsValid, admit-IsValid}
use cn.Unix.Relay.Chain.{System, initial, to_e, to_s, to_c, tc_round, tc_run}

abbrev pub last_server : Last → Server
last_server (running v) = v
last_server (stopped v) = v

-- The threads of e: none after its `exit(0)`.
abbrev pub last_threads : Last → List ℤ
last_threads (running v) = v.threads
last_threads (stopped v) = []

-- How many threads serve the descriptor `x`.
abbrev pub served : ℤ → System → ℕ
served x sys =
    occurrences x sys.c.threads + occurrences x sys.s.threads + occurrences x (last_threads sys.e)

-- How often the descriptor `x` comes with a service that tc knows.
abbrev pub asked : ℤ → List (ℕ × ℤ) → ℕ
asked x [] = 0
asked x ((serv_no, nfd) ∷ requests) =
    (if serv_no == 1
      then bit (eqb_ℤ x nfd)
      else if serv_no == 2
      then bit (eqb_ℤ x nfd)
      else if serv_no == 3
      then bit (eqb_ℤ x nfd)
      else 0)
    + asked x requests

pub record Bounds (sys : System) : Type 0 where
  pub of_c : IsValid max_c sys.c
  pub of_s : IsValid max_s sys.s
  pub of_e : IsValid max_e (last_server sys.e)

-- While e is running every client is served. When it has stopped, the clients that it had and one more one are not,
-- and it had as many clients as it can have.
abbrev pub Accounted : Last → (ℤ → ℕ) → (ℤ → ℕ) → Type 0
Accounted (running v) got wanted = (x : ℤ) → got x ≡ wanted x
Accounted (stopped v) got wanted =
    (lost : ℤ) × ((x : ℤ) → got x + (occurrences x v.threads + bit (eqb_ℤ x lost)) ≡ wanted x)
    × (v.clients_no ≡ max_e)

admit-occurrences :
    (max : ℕ) (v : Server) (fd x : ℤ)
    → occurrences x (admit max v fd).threads
      ≡ occurrences x v.threads + (if leb max v.clients_no then 0 else bit (eqb_ℤ x fd))
unfolding admit
admit-occurrences max v fd x = ground (arith, occurrences-append x v.threads (fd ∷ []))

to_e-IsValid :
    (l : Last) (fd : ℤ) → IsValid max_e (last_server l) → IsValid max_e (last_server (to_e l fd))
unfolding to_e admit_last
to_e-IsValid (running v) fd h = ground (arith, length-append v.threads (fd ∷ []))
to_e-IsValid (stopped v) fd h = h

-- What e does with one more client, after `base` clients of the other servers.
to_e-Accounted :
    (v : Server) (fd : ℤ) (base : ℤ → ℕ)
    → IsValid max_e v
    → Accounted
        (to_e (running v) fd)
        (λ x. base x + occurrences x (last_threads (to_e (running v) fd)))
        (λ x. base x + occurrences x v.threads + bit (eqb_ℤ x fd))
unfolding to_e admit_last
to_e-Accounted v fd base h = elim (Bool-cases (leb max_e v.clients_no)) [
  | inl full ↦ rw full (fd, (λ x. omega arith), ground (arith, h.bounded))
  | inr room ↦ rw room (λ x. omega (arith, occurrences-append x v.threads (fd ∷ [])))
]

Accounted-cong :
    (l : Last) {got got' wanted wanted' : ℤ → ℕ}
    → ((x : ℤ) → got' x ≡ got x)
    → ((x : ℤ) → wanted' x ≡ wanted x)
    → Accounted l got wanted
    → Accounted l got' wanted'
Accounted-cong (running v) g w h = λ x. omega (arith, g x, w x, h x)
Accounted-cong (stopped v) g w (lost, h, full) = (lost, (λ x. omega (arith, g x, w x, h x)), full)

-- One more request has been handled: the bounds hold, and it is accounted for.
abbrev Handled : System → ℤ → System → Type 0
Handled sys fd sys' =
    Bounds sys' × Accounted sys'.e (λ x. served x sys') (λ x. served x sys + bit (eqb_ℤ x fd))

module _ (c s v : Server) (fd : ℤ) where
  abbrev sys : System
  sys = record { c = c; s = s; e = running v }

  to_e-Handled : Bounds sys → Handled sys fd (record sys { e = to_e (running v) fd })
  to_e-Handled b = (
    record { of_c = b.of_c; of_s = b.of_s; of_e = to_e-IsValid (running v) fd b.of_e },
    to_e-Accounted v fd (λ x. occurrences x c.threads + occurrences x s.threads) b.of_e,
  )

  to_s-Handled : Bounds sys → Handled sys fd (to_s sys fd)
  unfolding to_s
  to_s-Handled b = elim (Bool-cases (leb max_s s.clients_no)) [
    | inl full ↦
        let kept : (x : ℤ) → occurrences x (admit max_s s fd).threads ≡ occurrences x s.threads =
          λ x. ground (arith, admit-occurrences max_s s fd x, full) in
        rw full (
          record {
            of_c = b.of_c;
            of_s = admit-IsValid max_s s fd b.of_s;
            of_e = to_e-IsValid (running v) fd b.of_e;
          },
          Accounted-cong (to_e (running v) fd) (λ x. omega (arith, kept x)) (λ x. refl)
              (to_e-Accounted v fd (λ x. occurrences x c.threads + occurrences x s.threads) b.of_e),
        )
    | inr room ↦ rw room (
      record { of_c = b.of_c; of_s = admit-IsValid max_s s fd b.of_s; of_e = b.of_e },
      λ x. ground (arith, admit-occurrences max_s s fd x, room),
    )
  ]

module _ (c s v : Server) (fd : ℤ) where
  to_c-Handled : Bounds (sys c s v fd) → Handled (sys c s v fd) fd (to_c (sys c s v fd) fd)
  unfolding to_c
  to_c-Handled b = elim (Bool-cases (leb max_c c.clients_no)) [
    | inl full ↦
        let c' = admit max_c c fd in
        let kept : (x : ℤ) → occurrences x c'.threads ≡ occurrences x c.threads =
          λ x. ground (arith, admit-occurrences max_c c fd x, full) in
        let (bounds, account) =
          to_s-Handled c' s v fd
            (record { of_c = admit-IsValid max_c c fd b.of_c; of_s = b.of_s; of_e = b.of_e }) in
        rw full (
          bounds,
          Accounted-cong (to_s (sys c' s v fd) fd).e (λ x. refl) (λ x. omega (arith, kept x))
              account,
        )
    | inr room ↦ rw room (
      record { of_c = admit-IsValid max_c c fd b.of_c; of_s = b.of_s; of_e = b.of_e },
      λ x. ground (arith, admit-occurrences max_c c fd x, room),
    )
  ]

  -- One round of tc.
  tc_round-Handled :
      (serv_no : ℕ)
      → Bounds (sys c s v fd)
      → let next = tc_round (sys c s v fd) serv_no fd in
        Bounds next
        × Accounted next.e
            (λ x. served x next)
            (λ x. served x (sys c s v fd) + asked x ((serv_no, fd) ∷ []))
  unfolding tc_round
  tc_round-Handled serv_no b = elim (Bool-cases (serv_no == 1)) [
    | inl first ↦ rw first (counted (to_c (sys c s v fd) fd) (to_c-Handled b))
    | inr not_first ↦ elim (Bool-cases (serv_no == 2)) [
      | inl second ↦
          rw (not_first, second) (counted (to_s (sys c s v fd) fd) (to_s-Handled c s v fd b))
      | inr not_second ↦ elim (Bool-cases (serv_no == 3)) [
        | inl third ↦
            rw (not_first, not_second, third)
              (counted (record (sys c s v fd) { e = to_e (running v) fd })
                (to_e-Handled c s v fd b))
        | inr unknown ↦ rw (not_first, not_second, unknown) (b, λ x. omega arith)
      ]
    ]
  ]
    where
      -- `asked` at one request has one more 0 at its end.
      counted :
          (next : System)
          → Handled (sys c s v fd) fd next
          → Bounds next
            × Accounted next.e
                (λ x. served x next)
                (λ x. served x (sys c s v fd) + (bit (eqb_ℤ x fd) + 0))
      counted next (bounds, account) =
          (bounds, Accounted-cong next.e (λ x. refl) (λ x. omega arith) account)

-- What the loop of tc leaves: the requests that it took, and how the chain accounts for them.
pub record Served (requests : List (ℕ × ℤ)) (base : ℤ → ℕ) (r : System × List (ℕ × ℤ))
    : Type 0 where
  pub taken : List (ℕ × ℤ)
  pub split : requests ≡ taken ++ r.1
  pub finished : (v : Server) → r.0.e ≡ running v → r.1 ≡ []
  pub bounds : Bounds r.0
  pub account : Accounted r.0.e (λ x. served x r.0) (λ x. base x + asked x taken)

resume-Served :
    (requests : List (ℕ × ℤ)) (c s : Server) (l : Last) (wanted : ℤ → ℕ)
    → Bounds (record { c = c; s = s; e = l })
    → Accounted l (λ x. served x (record { c = c; s = s; e = l })) wanted
    → Served requests wanted (tc_run (record { c = c; s = s; e = l }) requests)
unfolding tc_run
resume-Served [] c s l wanted b a = record {
  taken = [];
  split = refl;
  finished = λ v e. refl;
  bounds = b;
  account = Accounted-cong l (λ x. refl) (λ x. omega arith) a;
}
resume-Served (r ∷ requests) c s (stopped v) wanted b a = record {
  taken = [];
  split = refl;
  finished = λ v' e. absurd cc;
  bounds = b;
  account = Accounted-cong (stopped v) (λ x. refl) (λ x. omega arith) a;
}
resume-Served ((serv_no, fd) ∷ requests) c s (running v) wanted b a =
    let next = tc_round (sys c s v fd) serv_no fd in
    let (bounds, account) = tc_round-Handled c s v fd serv_no b in
    let more = λ (x : ℤ). wanted x + asked x ((serv_no, fd) ∷ []) in
    let later =
      resume-Served requests next.c next.s next.e more bounds
        (Accounted-cong next.e (λ x. refl) (λ x. omega (arith, a x)) account) in
    record {
      taken = (serv_no, fd) ∷ later.taken;
      split = ap (◌∷◌ (serv_no, fd)) later.split;
      finished = later.finished;
      bounds = later.bounds;
      account =
          Accounted-cong (tc_run next requests).0.e (λ x. refl) (λ x. omega arith) later.account;
    }

idle-IsValid : (max : ℕ) → IsValid max idle
idle-IsValid max = record { counted = refl; bounded = omega arith }

-- From the start, for any clients with any requests: the three servers never serve more than one, two
-- and three clients. As long as e runs, no request is left, and each client with a known service is
-- served by exactly one thread of the chain; once e has stopped, the clients of the requests that were taken are
-- those that threads of c and s serve, the three whose threads ended with e, and one more, `lost`.
pub tc_run_serves : (requests : List (ℕ × ℤ)) → Served requests (λ x. 0) (tc_run initial requests)
tc_run_serves requests =
    resume-Served requests idle idle (running idle) (λ x. 0)
      (record { of_c = idle-IsValid max_c; of_s = idle-IsValid max_s; of_e = idle-IsValid max_e })
      (λ x. refl)
