-- ===== src/Unix/Startup.antt =====
-- The beginning of the servers' `main`: a list of system calls, each checked by `error_func` or not.
-- The calls are those of unixsockets/csemulti (c.c, s.c, e.c, tc.c), unixsockets/bs and unixsockets/tss;
-- the kernel's replies come as a list. `printf`, `perror` and the greeting texts are left out.
pub mod Listening
mod Tests
use Prim.Native.String.{String}
use cn.Base.{Bool, true, false, List, [], ◌∷◌, ◌++◌, if◌then◌else◌}
use cn.Base.Int.{ℤ, is_negative}

-- A system call, with the variable that holds its descriptor.
pub data Call : Type 0 where
  socket setsockopt bind listen connect accept send recv : String → Call
  unlink : String → Call

-- `error_func(call, message)`, or a call whose result is not looked at.
pub data Line : Type 0 where
  checked : Call → String → Line
  unchecked : Call → Line

abbrev pub call_of : Line → Call
call_of (checked c m) = c
call_of (unchecked c) = c

-- The loop behind the startup is reached; `exit(1)` after the message; or the kernel has not replied.
pub data Outcome : Type 0 where
  started : Outcome
  exited : String → Outcome
  blocked : Outcome

-- `error_func`: a negative value prints the message and exits.
unfoldable pub error_func : ℤ → String → List Call × Outcome → List Call × Outcome
error_func val message rest = if is_negative val then ([], exited message) else rest

-- The calls that are made, and how the startup ends.
unfoldable pub start : List Line → List ℤ → List Call × Outcome
unfolding error_func
start [] replies = ([], started)
start (l ∷ ls) [] = (call_of l ∷ [], blocked)
start (checked c m ∷ ls) (r ∷ replies) =
    let (calls, outcome) = error_func r m (start ls replies) in (c ∷ calls, outcome)
start (unchecked c ∷ ls) (r ∷ replies) =
    let (calls, outcome) = start ls replies in (c ∷ calls, outcome)

-- A server with one of the sockets that its clients connect to.
pub data Server : Type 0 where
  csemulti_c csemulti_s csemulti_s_cs csemulti_e csemulti_e_se csemulti_tc bs_server bs_backserver
        tss_mainserver tss_server :
      Server

-- A socket of its own, bound to its path, listening.
abbrev listener : String → List Line
listener sfd = checked (Call.bind sfd) "bind error" ∷ checked (Call.listen sfd) "listen error" ∷ []

-- csemulti/c.c
abbrev pub c_startup : List Line
c_startup =
    checked (socket "sfd1") "socket error"
    ∷ checked (connect "sfd1") "connect error"
    ∷ unchecked (send "sfd1")
    ∷ checked (socket "sfd") "socket error"
    ∷ unchecked (unlink "echo_socket_c")
    ∷ (listener "sfd" ++ checked (accept "sfd") "accept error" ∷ unchecked (recv "nfd") ∷ [])

-- csemulti/s.c
abbrev pub s_startup : List Line
s_startup =
    checked (socket "sfdcs") "socket error"
    ∷ checked (socket "sfd1") "socket error"
    ∷ checked (connect "sfd1") "connect error"
    ∷ unchecked (send "sfd1")
    ∷ checked (socket "sfd") "socket error"
    ∷ unchecked (unlink "echo_socket_s")
    ∷ unchecked (unlink "echo_socket_cs")
    ∷ (listener "sfd"
        ++ (listener "sfdcs"
            ++ checked (accept "sfdcs") "accept error"
              ∷ unchecked (recv "nfdcs")
              ∷ checked (accept "sfd") "accept error"
              ∷ unchecked (recv "nfd")
              ∷ []))

-- csemulti/e.c
abbrev pub e_startup : List Line
e_startup =
    checked (socket "sfdse") "socket error"
    ∷ checked (socket "sfd") "socket error"
    ∷ unchecked (unlink "echo_socket_e")
    ∷ unchecked (unlink "echo_socket_se")
    ∷ (listener "sfd"
        ++ (listener "sfdse"
            ++ checked (accept "sfdse") "accept error"
              ∷ unchecked (recv "nfdse")
              ∷ checked (accept "sfd") "accept error"
              ∷ unchecked (recv "nfd")
              ∷ []))

-- csemulti/tc.c
abbrev pub tc_startup : List Line
tc_startup =
    checked (socket "sfdc") "socket error"
    ∷ checked (socket "sfds") "socket error"
    ∷ checked (socket "sfde") "socket error"
    ∷ checked (connect "sfdc") "connect error"
    ∷ unchecked (send "sfdc")
    ∷ checked (connect "sfds") "connect error"
    ∷ unchecked (send "sfds")
    ∷ checked (connect "sfde") "connect error"
    ∷ unchecked (send "sfde")
    ∷ checked (socket "sfd") "socket error"
    ∷ unchecked (unlink "main_echo_socket")
    ∷ listener "sfd"

-- bs/server.c
abbrev pub server_startup : List Line
server_startup =
    checked (socket "bsfd") "socket error"
    ∷ checked (connect "bsfd") "connect error"
    ∷ unchecked (send "bsfd")
    ∷ checked (socket "sfd") "socket error"
    ∷ unchecked (unlink "echo_socket")
    ∷ listener "sfd"

-- bs/backserver.c
abbrev pub backserver_startup : List Line
backserver_startup =
    checked (socket "sfd") "socket error"
    ∷ unchecked (unlink "back_echo_socket")
    ∷ (listener "sfd" ++ checked (accept "sfd") "accept error" ∷ unchecked (recv "nfd") ∷ [])

-- tss/mainserver.c
abbrev pub tss_mainserver_startup : List Line
tss_mainserver_startup =
    checked (socket "sfds") "socket error"
    ∷ checked (connect "sfds") "connect error"
    ∷ unchecked (send "sfds")
    ∷ checked (socket "sfd") "socket error"
    ∷ unchecked (unlink "main_echo_socket")
    ∷ listener "sfd"

-- tss/server.c
abbrev pub tss_server_startup : List Line
tss_server_startup =
    checked (socket "sfd") "socket error"
    ∷ unchecked (unlink "echo_socket")
    ∷ (listener "sfd" ++ checked (accept "sfd") "accept error" ∷ unchecked (recv "nfd") ∷ [])

abbrev pub startup : Server → List Line
startup Server.csemulti_c = c_startup
startup Server.csemulti_s = s_startup
startup Server.csemulti_s_cs = s_startup
startup Server.csemulti_e = e_startup
startup Server.csemulti_e_se = e_startup
startup Server.csemulti_tc = tc_startup
startup Server.bs_server = server_startup
startup Server.bs_backserver = backserver_startup
startup Server.tss_mainserver = tss_mainserver_startup
startup Server.tss_server = tss_server_startup
