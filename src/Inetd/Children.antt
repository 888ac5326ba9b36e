-- ===== src/Inetd/Children.antt =====
-- The tables of the parent and of the children.
use cn.Base.{
  ℕ, ◌+◌, ◌≡◌, refl, ap, ap₂, ◌∙◌, Bool, true, false, ◌&&◌, Option, none, some, List, [], ◌∷◌, ◌++◌,
  ◌==◌, if◌then◌else◌, ltb, map, arith,
}
use cn.Base.Int.{pos}
use cn.Nfs.Text.{text}
use cn.Decimal.{print_int}
use cn.Inetd.{
  File, listener, connection, Table, assign, close, dup2, Client, Started, open_sockets, close_all,
  accept, child, serve_ready, rounds, inetd, super_loop, super_child, superserver,
}
use cn.Inetd.Tables.{
  is_in, is_unused, close_all-lookup, open_sockets-unused, dup2-open, assign-same, close-accept,
}

-- What a child has: its program, its standard input and output, and what the sockets of the services are.
abbrev pub view : List ℕ → Started → List ℕ × (Option File × (Option File × List (Option File)))
view sfd s = (s.servname, (s.table 0, (s.table 1, map s.table sfd)))

-- A child of service i for client c: the client's connection twice, and no socket.
abbrev pub served :
    List ℕ → ℕ → Client → List ℕ × (Option File × (Option File × List (Option File)))
served sfd i c = (
  text "server" ++ print_int (pos (i + 1)),
  (some (connection c.number), (some (connection c.number), map (λ s. none) sfd)),
)

-- No descriptor of a socket is 0 or 1.
abbrev pub all_above_1 : List ℕ → Bool
all_above_1 [] = true
all_above_1 (s ∷ sfd) = ltb 1 s && all_above_1 sfd

map-closed :
    (t : Table) (xs : List ℕ)
    → all_above_1 xs ≡ true
    → ((s : ℕ) → is_in s xs ≡ true → ltb 1 s ≡ true → t s ≡ none)
    → map t xs ≡ map (λ s. none) xs
map-closed t [] h closed = refl
map-closed t (s ∷ xs) h closed =
    let above : ltb 1 s ≡ true = ground (arith, h) in
    let others : all_above_1 xs ≡ true = ground (arith, h) in
    let here : is_in s (s ∷ xs) ≡ true = ground arith in
    ap₂ ◌∷◌ (closed s here above)
      (map-closed t xs others (λ x inside above_1. closed x (ground (arith, inside)) above_1))

-- Both descriptors of a child's connection.
abbrev both : File → Table → Table
both f u = assign 1 (some f) (assign 0 (some f) u)

child-table :
    (sfd : List ℕ) (i : ℕ) (c : Client) (t : Table)
    → is_in c.nfd sfd ≡ false
    → (child sfd i c.nfd (accept c t)).table
      ≡ both (connection c.number) (close_all sfd (accept c t))
unfolding child accept
child-table sfd i c t other =
    let u : Table = close_all sfd (accept c t) in
    let f : File = connection c.number in
    let here : (c.nfd == c.nfd) ≡ true = ground arith in
    let open_u : u c.nfd ≡ some f =
      rw (close_all-lookup sfd (accept c t) c.nfd, other, here) refl in
    ap (dup2 c.nfd 1) (dup2-open c.nfd 0 u f open_u)
    ∙ dup2-open c.nfd 1 (assign 0 (some f) u) f (assign-same c.nfd 0 u f open_u)

child-served :
    (sfd : List ℕ) (i : ℕ) (c : Client) (t : Table)
    → all_above_1 sfd ≡ true
    → is_in c.nfd sfd ≡ false
    → view sfd (child sfd i c.nfd (accept c t)) ≡ served sfd i c
unfolding child
child-served sfd i c t h other =
    let u : Table = close_all sfd (accept c t) in
    let f : File = connection c.number in
    let name : List ℕ = text "server" ++ print_int (pos (i + 1)) in
    ap (λ v. (name, (v 0, (v 1, map v sfd)))) (child-table sfd i c t other)
    ∙ ap (λ l. (name, (some f, (some f, l)))) (map-closed (both f u) sfd h closed)
  where
    closed :
        (s : ℕ)
        → is_in s sfd ≡ true
        → ltb 1 s ≡ true
        → both (connection c.number) (close_all sfd (accept c t)) s ≡ none
    closed s inside above =
        let not_0 : (s == 0) ≡ false = ground (arith, above) in
        let not_1 : (s == 1) ≡ false = ground (arith, above) in
        rw (not_0, not_1, close_all-lookup sfd (accept c t) s, inside) refl

-- The clients of a round that get a process, with the service.
unfoldable pub round_served :
    List ℕ
    → ℕ
    → List (Option Client)
    → List (List ℕ × (Option File × (Option File × List (Option File))))
round_served sfd i [] = []
round_served sfd i (none ∷ clients) = round_served sfd (i + 1) clients
round_served sfd i (some c ∷ clients) =
    let rest = round_served sfd (i + 1) clients in if c.forked then served sfd i c ∷ rest else rest

unfoldable pub all_served :
    List ℕ
    → List (List (Option Client))
    → List (List ℕ × (Option File × (Option File × List (Option File))))
all_served sfd [] = []
all_served sfd (clients ∷ later) = round_served sfd 0 clients ++ all_served sfd later

-- Every client of a round, or of all rounds, has got a descriptor that is not in use in the table.
abbrev pub round_fresh : Table → List (Option Client) → Bool
round_fresh t [] = true
round_fresh t (none ∷ clients) = round_fresh t clients
round_fresh t (some c ∷ clients) = is_unused (t c.nfd) && round_fresh t clients

abbrev pub all_fresh : Table → List (List (Option Client)) → Bool
all_fresh t [] = true
all_fresh t (clients ∷ later) = round_fresh t clients && all_fresh t later

-- No descriptor outside the table `t` is one of a socket.
abbrev KeepsOff : List ℕ → Table → Type 0
KeepsOff sfd t = (fd : ℕ) → is_unused (t fd) ≡ true → is_in fd sfd ≡ false

serve_ready-served :
    (sfd : List ℕ) (i : ℕ) (clients : List (Option Client)) (t : Table)
    → all_above_1 sfd ≡ true
    → KeepsOff sfd t
    → round_fresh t clients ≡ true
    → ((serve_ready sfd i clients t).0 ≡ t)
      × (map (view sfd) (serve_ready sfd i clients t).1 ≡ round_served sfd i clients)
unfolding serve_ready round_served
serve_ready-served sfd i [] t h off fresh = (refl, refl)
serve_ready-served sfd i (none ∷ clients) t h off fresh =
    serve_ready-served sfd (i + 1) clients t h off fresh
serve_ready-served sfd i (some c ∷ clients) t h off fresh =
    let free : is_unused (t c.nfd) ≡ true = ground (arith, fresh) in
    let others : round_fresh t clients ≡ true = ground (arith, fresh) in
    let (back, rest) = serve_ready-served sfd (i + 1) clients t h off others in
    let mine = child-served sfd i c t h (off c.nfd free) in
    rw (close-accept c t free) (back, with_child c.forked mine rest)
  where
    with_child :
        (b : Bool)
        → view sfd (child sfd i c.nfd (accept c t)) ≡ served sfd i c
        → map (view sfd) (serve_ready sfd (i + 1) clients t).1 ≡ round_served sfd (i + 1) clients
        → map (view sfd) (
            if b
            then child sfd i c.nfd (accept c t) ∷ (serve_ready sfd (i + 1) clients t).1
            else (serve_ready sfd (i + 1) clients t).1)
          ≡ (if b
              then served sfd i c ∷ round_served sfd (i + 1) clients
              else round_served sfd (i + 1) clients)
    with_child true mine rest = ap₂ ◌∷◌ mine rest
    with_child false mine rest = rest

map-append {ℓ ℓ'} :
    {A : Type ℓ} {B : Type ℓ'} (f : A → B) (xs ys : List A)
    → map f (xs ++ ys) ≡ map f xs ++ map f ys
map-append f [] ys = refl
map-append f (x ∷ xs) ys = ap (◌∷◌ (f x)) (map-append f xs ys)

rounds-served :
    (sfd : List ℕ) (clients : List (List (Option Client))) (t : Table)
    → all_above_1 sfd ≡ true
    → KeepsOff sfd t
    → all_fresh t clients ≡ true
    → ((rounds sfd clients t).0 ≡ t)
      × (map (view sfd) (rounds sfd clients t).1 ≡ all_served sfd clients)
unfolding rounds all_served
rounds-served sfd [] t h off fresh = (refl, refl)
rounds-served sfd (clients ∷ later) t h off fresh =
    let now : round_fresh t clients ≡ true = ground (arith, fresh) in
    let others : all_fresh t later ≡ true = ground (arith, fresh) in
    let (back, mine) = serve_ready-served sfd 0 clients t h off now in
    let (end, rest) = rounds-served sfd later t h off others in
    rw back (
      end,
      map-append (view sfd) (serve_ready sfd 0 clients t).1 (rounds sfd later t).1
          ∙ ap₂ ◌++◌ mine rest,
    )

-- The sockets of the services are not the descriptors 0 and 1, and every client gets a descriptor that is
-- not in use. Then the server ends every round with the descriptors that it began with; and for each client
-- that comes to service i, if `fork` makes a process, the program server<i+1> is started, once and in order,
-- with the client's connection as its standard input and output, and with none of the sockets.
pub inetd-served :
    (sfd : List ℕ) (clients : List (List (Option Client))) (t : Table)
    → all_above_1 sfd ≡ true
    → all_fresh (open_sockets 0 sfd t) clients ≡ true
    → ((inetd sfd clients t).0 ≡ open_sockets 0 sfd t)
      × (map (view sfd) (inetd sfd clients t).1 ≡ all_served sfd clients)
unfolding inetd
inetd-served sfd clients t h fresh =
    rounds-served sfd clients (open_sockets 0 sfd t) h
      (λ fd free. (open_sockets-unused 0 sfd t fd free).0) fresh

-- Clients that come one by one to the first service.
unfoldable pub one_by_one : List Client → List (List (Option Client))
one_by_one [] = []
one_by_one (c ∷ clients) = (some c ∷ []) ∷ one_by_one clients

super_child-child : (sfd nsfd : ℕ) (t : Table) → super_child sfd nsfd t ≡ child (sfd ∷ []) 0 nsfd t
unfolding super_child child close_all cn.Decimal.print_int
super_child-child sfd nsfd t = refl

append-choice {ℓ} :
    {A : Type ℓ} (b : Bool) (x : A) (xs : List A)
    → (if b then x ∷ xs else xs) ≡ (if b then x ∷ [] else []) ++ xs
append-choice true x xs = refl
append-choice false x xs = refl

super_loop-rounds :
    (sfd : ℕ) (clients : List Client) (t : Table)
    → super_loop sfd clients t ≡ rounds (sfd ∷ []) (one_by_one clients) t
unfolding super_loop rounds one_by_one serve_ready
super_loop-rounds sfd [] t = refl
super_loop-rounds sfd (c ∷ clients) t =
    let u : Table = close c.nfd (accept c t) in
    let rest = rounds (sfd ∷ []) (one_by_one clients) u in
    rw (super_loop-rounds sfd clients u, super_child-child sfd c.nfd (accept c t))
      (ap (λ l. (rest.0, l))
        (append-choice c.forked (child (sfd ∷ []) 0 c.nfd (accept c t)) rest.1))

-- mid/superserver does the same as mid/inetd with a single service, whose clients come one by one: the same
-- programs are started with the same descriptors, and the server ends with the same ones.
pub superserver-inetd :
    (sfd : ℕ) (clients : List Client) (t : Table)
    → superserver sfd clients t ≡ inetd (sfd ∷ []) (one_by_one clients) t
unfolding superserver inetd open_sockets
superserver-inetd sfd clients t = super_loop-rounds sfd clients (assign sfd (some (listener 0)) t)
