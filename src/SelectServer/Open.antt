-- ===== src/SelectServer/Open.antt =====
-- The connections that stay open.
use cn.Base.{
  ℕ, ◌≡◌, refl, sym, ap, ap₂, ◌∙◌, Bool, true, false, ◌&&◌, Option, none, some, List, [], ◌∷◌, ◌++◌,
  ◌==◌, map, arith, Bool-cases, inl, inr,
}
use cn.Inetd.{File, connection, Table, Client, accept}
use cn.Inetd.Tables.{is_unused}
use cn.SelectServer.{accept_ready, mainserver}

-- The clients of a round.
unfoldable pub present : List (Option Client) → List Client
present [] = []
present (none ∷ clients) = present clients
present (some c ∷ clients) = c ∷ present clients

-- The clients of all rounds.
unfoldable pub all_present : List (List (Option Client)) → List Client
all_present [] = []
all_present (clients ∷ rounds) = present clients ++ all_present rounds

-- The table after so many clients.
abbrev accept_all : List Client → Table → Table
accept_all [] t = t
accept_all (c ∷ clients) t = accept_all clients (accept c t)

-- `accept` has always returned a descriptor that was not in use.
abbrev pub all_new : Table → List Client → Bool
all_new t [] = true
all_new t (c ∷ clients) = is_unused (t c.nfd) && all_new (accept c t) clients

accept_all-append :
    (xs ys : List Client) (t : Table) → accept_all (xs ++ ys) t ≡ accept_all ys (accept_all xs t)
accept_all-append [] ys t = refl
accept_all-append (c ∷ xs) ys t = accept_all-append xs ys (accept c t)

accept_ready-accept_all :
    (clients : List (Option Client)) (t : Table)
    → (accept_ready clients t).0 ≡ accept_all (present clients) t
unfolding accept_ready present
accept_ready-accept_all [] t = refl
accept_ready-accept_all (none ∷ clients) t = accept_ready-accept_all clients t
accept_ready-accept_all (some c ∷ clients) t = accept_ready-accept_all clients (accept c t)

mainserver-accept_all :
    (rounds : List (List (Option Client))) (t : Table)
    → (mainserver rounds t).0 ≡ accept_all (all_present rounds) t
unfolding mainserver all_present
mainserver-accept_all [] t = refl
mainserver-accept_all (clients ∷ rounds) t =
    mainserver-accept_all rounds (accept_ready clients t).0
    ∙ ap (accept_all (all_present rounds)) (accept_ready-accept_all clients t)
    ∙ sym (accept_all-append (present clients) (all_present rounds) t)

used_differs :
    (t : Table) (x y : ℕ) (f : File) → t x ≡ some f → is_unused (t y) ≡ true → (x == y) ≡ false
used_differs t x y f used free = elim (Bool-cases (x == y)) [
  | inl same ↦
      let here : x ≡ y = ground (arith, same) in
      let both : is_unused (some f) ≡ true = ap is_unused (sym used ∙ ap t here) ∙ free in
      ground (arith, both)
  | inr other ↦ other
]

accept_all-keeps :
    (clients : List Client) (t : Table) (x : ℕ) (f : File)
    → all_new t clients ≡ true
    → t x ≡ some f
    → accept_all clients t x ≡ some f
unfolding accept
accept_all-keeps [] t x f new used = used
accept_all-keeps (c ∷ clients) t x f new used =
    let free : is_unused (t c.nfd) ≡ true = ground (arith, new) in
    let later : all_new (accept c t) clients ≡ true = ground (arith, new) in
    accept_all-keeps clients (accept c t) x f later (rw (used_differs t x c.nfd f used free) used)

accept_all-open :
    (clients : List Client) (t : Table)
    → all_new t clients ≡ true
    → map (λ c. accept_all clients t c.nfd) clients ≡ map (λ c. some (connection c.number)) clients
unfolding accept
accept_all-open [] t new = refl
accept_all-open (c ∷ clients) t new =
    let here : (c.nfd == c.nfd) ≡ true = ground arith in
    let later : all_new (accept c t) clients ≡ true = ground (arith, new) in
    ap₂ ◌∷◌ (accept_all-keeps clients (accept c t) c.nfd (connection c.number) later (rw here refl))
      (accept_all-open clients (accept c t) later)

-- If `accept` always returns a descriptor that is not in use, the server keeps the connection of every client
-- that has ever come open: none is closed after `fork`.
pub mainserver_keeps_all :
    (rounds : List (List (Option Client))) (t : Table)
    → all_new t (all_present rounds) ≡ true
    → map (λ c. (mainserver rounds t).0 c.nfd) (all_present rounds)
      ≡ map (λ c. some (connection c.number)) (all_present rounds)
mainserver_keeps_all rounds t new =
    ap (λ last. map (λ c. last c.nfd) (all_present rounds)) (mainserver-accept_all rounds t)
    ∙ accept_all-open (all_present rounds) t new
