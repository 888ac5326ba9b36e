-- ===== src/Inetd.antt =====
-- mid/inetd/server.c and mid/superserver/server.c: for every client a process is started, whose standard input
-- and output are the client's connection. A process has a table of descriptors; the replies of `socket`, of
-- `accept` and of `fork` are arguments. `bind`, `listen` and `execve` are taken to succeed, and so is `select`:
-- where `execve` fails, the child goes on with the loop of its parent.
pub mod Children
pub mod Tables
mod Tests
use cn.Base.{
  ℕ, zero, suc, ◌+◌, Bool, true, false, Option, none, some, List, [], ◌∷◌, ◌++◌, ◌==◌,
  if◌then◌else◌,
}
use cn.Base.Int.{pos}
use cn.Nfs.Text.{text}
use cn.Decimal.{print_int}

-- What a descriptor stands for: the socket of a service, the connection of a client, or anything that the
-- process had before.
pub data File : Type 0 where
  listener : ℕ → File
  connection : ℕ → File
  inherited : ℕ → File

abbrev pub Table : Type 0
Table = ℕ → Option File

abbrev pub assign : ℕ → Option File → Table → Table
assign fd f t x = if x == fd then f else t x

-- `close`
unfoldable pub close : ℕ → Table → Table
close fd t = assign fd none t

-- `dup2(from,to)`: nothing happens if `from` is not open.
unfoldable pub dup2 : ℕ → ℕ → Table → Table
dup2 from to t = duplicate (t from)
  where
    duplicate : Option File → Table
    duplicate none = t
    duplicate (some f) = assign to (some f) t

-- A client, the descriptor that `accept` gives it, and whether `fork` makes a process.
pub record Client : Type 0 where
  pub number : ℕ
  pub nfd : ℕ
  pub forked : Bool

-- A process in which `execve` is called.
pub record Started : Type 0 where
  pub servname : List ℕ
  pub table : Table

-- The loop over i that makes the sockets of the services i, i+1, ..., from the descriptors that `socket` returns.
unfoldable pub open_sockets : ℕ → List ℕ → Table → Table
open_sockets i [] t = t
open_sockets i (fd ∷ sfd) t = open_sockets (i + 1) sfd (assign fd (some (listener i)) t)

-- The child's loop.
unfoldable pub close_all : List ℕ → Table → Table
unfolding close
close_all [] t = t
close_all (fd ∷ sfd) t = close_all sfd (close fd t)

unfoldable pub accept : Client → Table → Table
accept c t = assign c.nfd (some (connection c.number)) t

-- The branch `c==0`.
unfoldable pub child : List ℕ → ℕ → ℕ → Table → Started
unfolding close_all dup2
child sfd i nfd t = record {
  servname = text "server" ++ print_int (pos (i + 1));
  table = dup2 nfd 1 (dup2 nfd 0 (close_all sfd t));
}

-- The loop over i behind `select`, for the services i, i+1, ...: a client for each socket that is ready.
unfoldable pub serve_ready : List ℕ → ℕ → List (Option Client) → Table → Table × List Started
unfolding accept child close
serve_ready sfd i [] t = (t, [])
serve_ready sfd i (none ∷ clients) t = serve_ready sfd (i + 1) clients t
serve_ready sfd i (some c ∷ clients) t =
    let t' = accept c t in
    let (last, started) = serve_ready sfd (i + 1) clients (close c.nfd t') in
    (last, if c.forked then child sfd i c.nfd t' ∷ started else started)

-- The endless loop.
unfoldable pub rounds : List ℕ → List (List (Option Client)) → Table → Table × List Started
unfolding serve_ready
rounds sfd [] t = (t, [])
rounds sfd (clients ∷ later) t =
    let (t', started) = serve_ready sfd 0 clients t in
    let (last, others) = rounds sfd later t' in (last, started ++ others)

unfoldable pub inetd : List ℕ → List (List (Option Client)) → Table → Table × List Started
unfolding rounds open_sockets
inetd sfd clients t = rounds sfd clients (open_sockets 0 sfd t)

-- The child of mid/superserver, which starts `server1`.
unfoldable pub super_child : ℕ → ℕ → Table → Started
unfolding close dup2
super_child sfd nsfd t = record {
  servname = text "server1";
  table = dup2 nsfd 1 (dup2 nsfd 0 (close sfd t));
}

-- The endless loop of mid/superserver.
unfoldable pub super_loop : ℕ → List Client → Table → Table × List Started
unfolding accept super_child close
super_loop sfd [] t = (t, [])
super_loop sfd (c ∷ clients) t =
    let t' = accept c t in
    let (last, started) = super_loop sfd clients (close c.nfd t') in
    (last, if c.forked then super_child sfd c.nfd t' ∷ started else started)

unfoldable pub superserver : ℕ → List Client → Table → Table × List Started
unfolding super_loop
superserver sfd clients t = super_loop sfd clients (assign sfd (some (listener 0)) t)
