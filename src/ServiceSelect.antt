-- ===== src/ServiceSelect.antt =====
-- mid/ss/server.c: three services on three sockets, in one process that waits in `select` for a client of any of them.
pub mod Alone
pub mod Polling
mod Tests
use cn.Base.{
  ℕ, zero, suc, ◌+◌, Bool, true, false, ◌&&◌, ◌||◌, Option, none, some, List, [], ◌∷◌, ◌++◌, ◌==◌,
  map, if◌then◌else◌, leb, ◌>>=◌,
}

-- A service: its socket, the clients that wait at it, those that come before each of the next rounds, and those whose
-- connections it has taken.
pub record Service : Type 0 where
  pub sfd : ℕ
  pub waiting : List ℕ
  pub coming : List (List ℕ)
  pub accepted : List ℕ

-- `fd_set`
abbrev pub Readset : Type 0
Readset = ℕ → Bool

-- `FD_CLR`
abbrev pub fd_clr : ℕ → Readset → Readset
fd_clr fd readset x = if x == fd then false else readset x

-- `accept`, which waits where no client does.
unfoldable pub accept : Service → Option Service
accept s = taken s.waiting
  where
    taken : List ℕ → Option Service
    taken [] = none
    taken (c ∷ waiting) = some (record s { waiting = waiting; accepted = s.accepted ++ c ∷ [] })

-- The loop over j. `recv` is called for the socket that listens, and gets nothing.
unfoldable pub poll_services : List Service → Readset → Option (List Service × Readset)
unfolding accept
poll_services [] readset = some ([], readset)
poll_services (s ∷ services) readset =
    let chosen : Option (List Service × Readset) = do
      s' ← accept s
      r ← poll_services services (fd_clr s.sfd readset)
      some (s' ∷ r.0, r.1)
    in let others : Option (List Service × Readset) = do
      r ← poll_services services readset
      some (s ∷ r.0, r.1)
      in if readset s.sfd then chosen else others

-- The loop over i, with the number of its rounds that are left.
unfoldable pub poll_all : ℕ → List Service → Readset → Option (List Service)
unfolding poll_services
poll_all zero services readset = some services
poll_all (suc left) services readset = do
  (services', readset') ← poll_services services readset
  poll_all left services' readset'

abbrev pub is_waiting : List ℕ → Bool
is_waiting [] = false
is_waiting (c ∷ cs) = true

-- `rep` and `select`: the sockets at which a client waits.
unfoldable pub select : List Service → Readset
select [] fd = false
select (s ∷ services) fd = fd == s.sfd && is_waiting s.waiting || select services fd

-- The clients that come before `select` returns.
abbrev pub gather : Service → Service
gather s = gathered s.coming
  where
    gathered : List (List ℕ) → Service
    gathered [] = s
    gathered (cs ∷ coming) = record s { waiting = s.waiting ++ cs; coming = coming }

-- `maxfd`, from -1 on, and one more.
unfoldable pub loop_rounds : List Service → ℕ
loop_rounds [] = 0
loop_rounds (s ∷ services) =
    let rest = loop_rounds services in if leb rest (s.sfd + 1) then s.sfd + 1 else rest

-- So many rounds of the endless loop.
unfoldable pub serve_rounds : ℕ → List Service → Option (List Service)
unfolding poll_all select loop_rounds
serve_rounds zero services = some services
serve_rounds (suc rounds) services =
    let here = map gather services in
    do services' ← poll_all (loop_rounds here) here (select here); serve_rounds rounds services'
