-- ===== src/Concurrent.antt =====
-- sockets1/concurrentserver/server.c: every client names a service, 1 or 2, and gets the program lower or upper on
-- its connection. Tables of descriptors are those of Inetd; `bind`, `listen` and `execv` are taken to succeed:
-- where `execv` fails, the child goes on with the loop of its parent.
pub mod Chosen
pub mod Lines
mod Tests
use cn.Base.{ℕ, ◌==◌, Bool, Option, none, some, List, [], ◌∷◌, if◌then◌else◌, take, replicate}
use cn.Nfs.Text.{text, equal}
use cn.Readers.{overwrite, before_zero}
use cn.Inetd.{listener, Table, Client, Started, assign, close, dup2, accept}

-- A client, and the bytes that come from it before the server reads; none if `read` fails.
pub record Visit : Type 0 where
  pub client : Client
  pub bytes : List ℕ

-- "1\n" and "2\n".
abbrev pub one_line : List ℕ
one_line = 49 ∷ 10 ∷ []

abbrev pub two_line : List ℕ
two_line = 50 ∷ 10 ∷ []

-- The variable `service`; `none` at an invalid choice, after which the server exits.
unfoldable pub choose : List ℕ → Option ℕ
choose buffer =
    let line = before_zero buffer in
    if equal line one_line then some 1 else if equal line two_line then some 2 else none

-- The branch `pid == 0`.
unfoldable pub concurrent_child : ℕ → ℕ → ℕ → Table → Started
unfolding close dup2
concurrent_child service sfd nsfd t = record {
  servname = if service == 1 then text "./lower" else text "./upper";
  table = close nsfd (dup2 nsfd 1 (dup2 nsfd 0 (close sfd t)));
}

-- The processes that are started, and whether the server has exited.
pub record Run : Type 0 where
  pub started : List Started
  pub exited : Bool

-- After `fork`: if it fails, `nsfd` stays open in the server.
abbrev pub parent : Client → Table → Table
parent c t = if c.forked then close c.nfd t else t

-- The endless loop. `buffer` is cleared before it, and by the children.
unfoldable pub concurrent_loop : ℕ → List ℕ → List Visit → Table → Run
unfolding choose concurrent_child accept close
concurrent_loop sfd buffer [] t = record { started = []; exited = Bool.false }
concurrent_loop sfd buffer (r ∷ visits) t =
    let c = r.client in
    let t' = accept c t in
    let buffer' = overwrite (take 100 r.bytes) buffer in
    elim (choose buffer') [
      | none ↦ record { started = []; exited = Bool.true }
      | some service ↦
          let later = concurrent_loop sfd buffer' visits (parent c t') in
          let child = concurrent_child service sfd c.nfd t' in
          record later { started = if c.forked then child ∷ later.started else later.started }
    ]

unfoldable pub concurrent : ℕ → List Visit → Table → Run
unfolding concurrent_loop
concurrent sfd visits t =
    concurrent_loop sfd (replicate 250 0) visits (assign sfd (some (listener 0)) t)
