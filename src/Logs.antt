-- ===== src/Logs.antt =====
-- select_servers/logserver: logserver.c makes a fifo for each log, and every server.c takes the number of its log
-- from the shared memory. Steps of the programs come one after another: what is written to a log is read
-- before anything else is written.
pub mod Last
mod Tests
use cn.Base.{
  ℕ, zero, suc, ◌+◌, ◌-◌, Bool, true, false, Option, none, some, List, [], ◌∷◌, ◌++◌, ◌==◌, ◌&&◌,
  if◌then◌else◌, ltb, leb, get_elem?,
}
use cn.Base.Int.{ℤ, pos, negsuc}

-- The number in the shared memory, the logs of the servers in the order in which these have started, and the
-- lines that the log server has printed.
pub record Logs : Type 0 where
  pub number : ℤ
  pub lognos : List ℕ
  pub logged : List (List ℕ)

-- A server is started, or a server has read a message of one of its users.
pub data Event : Type 0 where
  server_starts : Event
  server_reads : ℕ → List ℕ → Event

-- `number-1`
unfoldable pub less_one : ℤ → ℤ
less_one (pos n) = if n == 0 then negsuc 0 else pos (n - 1)
less_one (negsuc n) = negsuc (n + 1)

-- server.c up to its loop, where there are the fifos logfifo0, ..., logfifo<n-1>: if its own is not there, it
-- exits.
unfoldable pub start_server : ℕ → Logs → Logs
unfolding less_one
start_server n s = open_log (less_one s.number)
  where
    open_log : ℤ → Logs
    open_log (pos logno) =
        if ltb logno n
        then record s { number = pos logno; lognos = s.lognos ++ (logno ∷ []) }
        else record s { number = pos logno }
    open_log (negsuc below) = record s { number = negsuc below }

-- The loop over j of logserver.c, for log `logno`: only the first argc-1 logs are in `readset`. There are no
-- more than the n of `log_server`.
unfoldable pub read_log : ℕ → ℕ → List ℕ → Logs → Logs
read_log argc logno buf s =
    if ltb logno (argc - 1) then record s { logged = s.logged ++ (buf ∷ []) } else s

-- The loop of server.c for a message, and what the log server does.
unfoldable pub log_message : ℕ → ℕ → List ℕ → Logs → Logs
unfolding read_log
log_message argc server buf s = to_log (get_elem? s.lognos server)
  where
    to_log : Option ℕ → Logs
    to_log none = s
    to_log (some logno) = read_log argc logno buf s

unfoldable pub log_step : ℕ → ℕ → Event → Logs → Logs
unfolding start_server log_message
log_step argc n server_starts s = start_server n s
log_step argc n (server_reads server buf) s = log_message argc server buf s

unfoldable pub log_steps : ℕ → ℕ → List Event → Logs → Logs
unfolding log_step
log_steps argc n [] s = s
log_steps argc n (e ∷ events) s = log_steps argc n events (log_step argc n e s)

-- The cells of `fd`.
abbrev pub max_logs : ℕ
max_logs = 10

-- logserver.c with `n` logs. There is no result if they have no room in `fd`, or if more than n cells of it are put into
-- `readset`, the others without a descriptor.
unfoldable pub log_server : ℕ → ℕ → List Event → Option (List (List ℕ))
unfolding log_steps
log_server argc n events =
    let last = log_steps argc n events (record { number = pos n; lognos = []; logged = [] }) in
    if leb n max_logs && leb (argc - 1) n then some last.logged else none
