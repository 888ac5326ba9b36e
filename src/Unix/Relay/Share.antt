-- ===== src/Unix/Relay/Share.antt =====
-- How one server divides the descriptors that it receives.
use cn.Base.{
  drop-nil, ℕ, zero, suc, ◌+◌, ◌<◌, ◌≤◌, ◌≡◌, refl, ap, ◌∙◌, true, false, Option, none, some, List,
  [], ◌∷◌, ◌++◌, leb, append-nil, append_assoc, length, take, drop, arith, length-append,
}
use cn.Base.Int.{ℤ}
use cn.Unix.Relay.{Server, idle, admit, s_round, max_s}

-- The number of threads is counted, and within the bound.
pub record IsValid (max : ℕ) (v : Server) : Type 0 where
  pub counted : v.clients_no ≡ length v.threads
  pub bounded : v.clients_no ≤ max

-- The descriptors of a sequence of rounds of s.c that are received, in order.
abbrev pub received : List (Option ℤ × Option ℤ) → List ℤ
received [] = []
received ((some fd, peer) ∷ rounds) = fd ∷ received rounds
received ((none, some fd) ∷ rounds) = fd ∷ received rounds
received ((none, none) ∷ rounds) = received rounds

abbrev pub s_run : Server → List (Option ℤ × Option ℤ) → Server
s_run v [] = v
s_run v ((main, peer) ∷ rounds) = s_run (s_round v main peer) rounds

abbrev pub admit_all : ℕ → Server → List ℤ → Server
admit_all max v [] = v
admit_all max v (fd ∷ fds) = admit_all max (admit max v fd) fds

s_run-admit_all :
    (v : Server) (rounds : List (Option ℤ × Option ℤ))
    → s_run v rounds ≡ admit_all max_s v (received rounds)
unfolding s_round
s_run-admit_all v [] = refl
s_run-admit_all v ((some fd, peer) ∷ rounds) = s_run-admit_all (admit max_s v fd) rounds
s_run-admit_all v ((none, some fd) ∷ rounds) = s_run-admit_all (admit max_s v fd) rounds
s_run-admit_all v ((none, none) ∷ rounds) = s_run-admit_all v rounds

pub admit-IsValid : (max : ℕ) (v : Server) (fd : ℤ) → IsValid max v → IsValid max (admit max v fd)
unfolding admit
admit-IsValid max v fd h = ground (arith, length-append v.threads (fd ∷ []))

admit_full :
    (max : ℕ) (v : Server) (fd : ℤ)
    → v.clients_no ≡ max
    → admit max v fd ≡ record v { forwarded = v.forwarded ++ fd ∷ [] }
unfolding admit
admit_full max v fd h = let full : leb max v.clients_no ≡ true = ground arith in rw full

admit_room :
    (max : ℕ) (v : Server) (fd : ℤ)
    → v.clients_no < max
    → admit max v fd ≡ record v { clients_no = v.clients_no + 1; threads = v.threads ++ fd ∷ [] }
unfolding admit
admit_room max v fd h = let room : leb max v.clients_no ≡ false = ground arith in rw room

take-nil : (k : ℕ) → take {A = ℤ} k [] ≡ []
take-nil zero = refl
take-nil (suc k) = refl

-- With room for k more clients, the first k descriptors are served and the later ones are sent on, both
-- in the order of their arrival.
pub admit_all_shares :
    (max k : ℕ) (v : Server) (fds : List ℤ)
    → IsValid max v
    → v.clients_no + k ≡ max
    → IsValid max (admit_all max v fds)
      × ((admit_all max v fds).threads ≡ v.threads ++ take k fds)
      × ((admit_all max v fds).forwarded ≡ v.forwarded ++ drop k fds)
admit_all_shares max k v [] h e =
    (h, rw (take-nil k, append-nil v.threads), rw (drop-nil k, append-nil v.forwarded))
admit_all_shares max zero v (fd ∷ fds) h e =
    let next = admit max v fd in
    let shape = admit_full max v fd (omega arith) in
    let (valid, served, sent) =
      admit_all_shares max zero next fds (admit-IsValid max v fd h)
        (omega (arith, ap (λ (u : Server). u.clients_no) shape)) in
    (
      valid,
      served ∙ ap (λ (u : Server). u.threads ++ []) shape,
      sent ∙ ap (λ (u : Server). u.forwarded ++ fds) shape ∙ append_assoc v.forwarded (fd ∷ []) fds,
    )
admit_all_shares max (suc k) v (fd ∷ fds) h e =
    let next = admit max v fd in
    let shape = admit_room max v fd (omega arith) in
    let (valid, served, sent) =
      admit_all_shares max k next fds (admit-IsValid max v fd h)
        (omega (arith, ap (λ (u : Server). u.clients_no) shape)) in
    (
      valid,
      served
          ∙ ap (λ (u : Server). u.threads ++ take k fds) shape
          ∙ append_assoc v.threads (fd ∷ []) (take k fds),
      sent ∙ ap (λ (u : Server). u.forwarded ++ drop k fds) shape,
    )

-- Server s, from its start and in whatever order its two connections become readable, creates threads for
-- the first two descriptors that it receives, and sends exactly the later ones on to server e.
pub s_run_shares :
    (rounds : List (Option ℤ × Option ℤ))
    → IsValid max_s (s_run idle rounds)
      × ((s_run idle rounds).threads ≡ take max_s (received rounds))
      × ((s_run idle rounds).forwarded ≡ drop max_s (received rounds))
s_run_shares rounds = rw (s_run-admit_all idle rounds) (
    admit_all_shares max_s max_s idle (received rounds)
      (record { counted = refl; bounded = omega arith }) refl)
