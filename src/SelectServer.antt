-- ===== src/SelectServer.antt =====
-- end/selectserver/mainserver.c: for every client of three ports `server1` is started. Tables of descriptors are
-- those of Inetd; `select`, `fork` (but for the reply -1) and `execve` are taken to succeed.
pub mod Open
mod Tests
use cn.Base.{
  ℕ, zero, suc, ◌+◌, Bool, true, false, Option, none, some, List, [], ◌∷◌, ◌++◌, if◌then◌else◌,
}
use cn.Nfs.Text.{text}
use cn.Inetd.{Table, Client, Started, dup2, accept}

-- The branch `f==0`.
unfoldable pub select_child : ℕ → Table → Started
unfolding dup2
select_child nfd t = record { servname = text "server1"; table = dup2 nfd 1 (dup2 nfd 0 t) }

-- The loop over i behind `select`: a client for each socket that is ready.
unfoldable pub accept_ready : List (Option Client) → Table → Table × List Started
unfolding accept select_child
accept_ready [] t = (t, [])
accept_ready (none ∷ clients) t = accept_ready clients t
accept_ready (some c ∷ clients) t =
    let t' = accept c t in
    let (last, started) = accept_ready clients t' in
    (last, if c.forked then select_child c.nfd t' ∷ started else started)

-- The endless loop.
unfoldable pub mainserver : List (List (Option Client)) → Table → Table × List Started
unfolding accept_ready
mainserver [] t = (t, [])
mainserver (clients ∷ rounds) t =
    let (t', started) = accept_ready clients t in
    let (last, others) = mainserver rounds t' in (last, started ++ others)
