-- ===== src/ServiceSelect/Polling.antt =====
-- What one pass over the services does.
use cn.Base.{
  ℕ, zero, suc, ◌≡◌, refl, sym, ap, ◌∙◌, Bool, true, false, not, ◌&&◌, ◌||◌, ◌⊎◌, some, List, [],
  ◌∷◌, ◌++◌, ◌==◌, map, arith, Bool-cases, inl, inr,
}
use cn.ServiceSelect.{Service, Readset, fd_clr, accept, poll_services, poll_all, is_waiting, select}

-- The first of the clients that wait is taken, if there is one.
abbrev pub take_first : Service → Service
take_first s = taken s.waiting
  where
    taken : List ℕ → Service
    taken [] = s
    taken (c ∷ waiting) = record s { waiting = waiting; accepted = s.accepted ++ c ∷ [] }

abbrev pub is_socket : ℕ → List Service → Bool
is_socket fd [] = false
is_socket fd (s ∷ services) = fd == s.sfd || is_socket fd services

-- No two services have the same socket.
abbrev pub distinct : List Service → Bool
distinct [] = true
distinct (s ∷ services) = not (is_socket s.sfd services) && distinct services

-- The bits of the sockets tell where a client waits.
abbrev pub Agrees : List Service → Readset → Type 0
Agrees [] readset = Unit
Agrees (s ∷ services) readset = (readset s.sfd ≡ is_waiting s.waiting) × Agrees services readset

abbrev pub Cleared : List Service → Readset → Type 0
Cleared [] readset = Unit
Cleared (s ∷ services) readset = (readset s.sfd ≡ false) × Cleared services readset

pub Agrees-same :
    (services : List Service) (a b : Readset)
    → ((fd : ℕ) → is_socket fd services ≡ true → a fd ≡ b fd)
    → Agrees services a
    → Agrees services b
Agrees-same [] a b same h = tt
Agrees-same (s ∷ services) a b same (e, h) =
    let own : (s.sfd == s.sfd) ≡ true = ground arith in
    (
      sym (same s.sfd (ground (arith, own))) ∙ e,
      Agrees-same services a b (λ fd i. same fd (ground (arith, i))) h,
    )

pub List-cases {ℓ} :
    {A : Type ℓ} (xs : List A) → (xs ≡ []) ⊎ ((x : A) × (rest : List A) × (xs ≡ x ∷ rest))
List-cases [] = inl refl
List-cases (x ∷ rest) = inr (x, rest, refl)

pub accept-take_first : (s : Service) → is_waiting s.waiting ≡ true → accept s ≡ some (take_first s)
unfolding accept
accept-take_first s h = elim (List-cases s.waiting) [
  | inl e ↦ absurd (cc (ap is_waiting e, h))
  | inr (c, rest, e) ↦ rw e refl
]

pub take_first_unchanged : (s : Service) → is_waiting s.waiting ≡ false → take_first s ≡ s
take_first_unchanged s h = elim (List-cases s.waiting) [
  | inl e ↦ rw e refl
  | inr (c, rest, e) ↦ absurd (cc (ap is_waiting e, h))
]

pub take_first-sfd : (s : Service) → (take_first s).sfd ≡ s.sfd
take_first-sfd s = elim (List-cases s.waiting) [ inl e ↦ rw e refl | inr (c, rest, e) ↦ rw e refl ]

pub select_unlisted :
    (services : List Service) (fd : ℕ) → is_socket fd services ≡ false → select services fd ≡ false
unfolding select
select_unlisted [] fd h = refl
select_unlisted (s ∷ services) fd h =
    let n : (fd == s.sfd) ≡ false = ground (arith, h) in
    rw n (select_unlisted services fd (ground (arith, h)))

-- A socket of the others is not the first one.
pub other_socket :
    (s : Service) (services : List Service) (fd : ℕ)
    → is_socket s.sfd services ≡ false
    → is_socket fd services ≡ true
    → (fd == s.sfd) ≡ false
other_socket s services fd unlisted listed = elim (Bool-cases (fd == s.sfd)) [
  | inl e ↦
      let same : fd ≡ s.sfd = ground (arith, e) in
      absurd (cc (ap (λ x. is_socket x services) same, unlisted, listed))
  | inr n ↦ n
]

pub select-Agrees :
    (services : List Service) → distinct services ≡ true → Agrees services (select services)
unfolding select
select-Agrees [] h = tt
select-Agrees (s ∷ services) h =
    let unlisted : is_socket s.sfd services ≡ false = ground (arith, h) in
    let own : (s.sfd == s.sfd) ≡ true = ground arith in
    (
      rw (own, select_unlisted services s.sfd unlisted) (or_false (is_waiting s.waiting)),
      Agrees-same services (select services) (select (s ∷ services))
          (λ fd listed. let n = other_socket s services fd unlisted listed in rw n refl)
          (select-Agrees services (ground (arith, h))),
    )
  where
    or_false : (b : Bool) → (b || false) ≡ b
    or_false true = refl
    or_false false = refl

pub poll_services-Agrees :
    (services : List Service) (readset : Readset)
    → distinct services ≡ true
    → Agrees services readset
    → (readset' : Readset) × (poll_services services readset
        ≡ some (map take_first services, readset'))
      × Cleared (map take_first services) readset'
      × ((fd : ℕ) → is_socket fd services ≡ false → readset' fd ≡ readset fd)
unfolding poll_services
poll_services-Agrees [] readset h agrees = (readset, refl, tt, λ fd e. refl)
poll_services-Agrees (s ∷ services) readset h (e, agrees) =
    let unlisted : is_socket s.sfd services ≡ false = ground (arith, h) in
    let others : distinct services ≡ true = ground (arith, h) in
    elim (Bool-cases (is_waiting s.waiting)) [
      | inl w ↦
          let own : (s.sfd == s.sfd) ≡ true = ground arith in
          let kept =
            Agrees-same services readset (fd_clr s.sfd readset)
              (λ fd listed. rw (other_socket s services fd unlisted listed) refl) agrees in
          let (readset', polled, cleared, frame) =
            poll_services-Agrees services (fd_clr s.sfd readset) others kept in
          (
            readset',
            rw (e ∙ w, accept-take_first s w, polled) refl,
            (rw (take_first-sfd s) (frame s.sfd unlisted ∙ rw own refl), cleared),
            λ fd n.
                let here : (fd == s.sfd) ≡ false = ground (arith, n) in
                frame fd (ground (arith, n)) ∙ rw here refl,
          )
      | inr w ↦
          let (readset', polled, cleared, frame) =
            poll_services-Agrees services readset others agrees in
          (
            readset',
            rw (e ∙ w, polled, take_first_unchanged s w) refl,
            (rw (take_first-sfd s) (frame s.sfd unlisted ∙ e ∙ w), cleared),
            λ fd n. frame fd (ground (arith, n)),
          )
    ]

pub poll_services-Cleared :
    (services : List Service) (readset : Readset)
    → Cleared services readset
    → poll_services services readset ≡ some (services, readset)
unfolding poll_services
poll_services-Cleared [] readset h = refl
poll_services-Cleared (s ∷ services) readset (e, h) =
    rw (e, poll_services-Cleared services readset h) refl

pub poll_all-Cleared :
    (left : ℕ) (services : List Service) (readset : Readset)
    → Cleared services readset
    → poll_all left services readset ≡ some services
unfolding poll_all
poll_all-Cleared zero services readset h = refl
poll_all-Cleared (suc left) services readset h =
    rw (poll_services-Cleared services readset h) (poll_all-Cleared left services readset h)
