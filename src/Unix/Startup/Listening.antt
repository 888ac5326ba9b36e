-- ===== src/Unix/Startup/Listening.antt =====
-- Where the sockets stand when a server has started.
use Prim.Native.String.{String}
use cn.Base.{
  ◌≡◌, refl, subst, ◌∙◌, Bool, true, false, ◌&&◌, List, [], ◌∷◌, if◌then◌else◌, Bool-cases, inl,
  inr,
}
use cn.Base.Int.{ℤ, is_negative}
use cn.Nfs.Text.{text, equal}
use cn.Unix.Startup.{
  Call, Line, checked, unchecked, Server, Outcome, started, exited, error_func, start, startup,
}

-- What the kernel has made of a socket.
pub data Socket : Type 0 where
  closed created bound listening : Socket

-- A call that succeeds, for the socket in the variable `sfd`.
abbrev pub step : String → Call → Socket → Socket
step sfd (Call.socket v) x = if equal (text v) (text sfd) then created else x
step sfd (Call.bind v) created = if equal (text v) (text sfd) then bound else created
step sfd (Call.listen v) bound = if equal (text v) (text sfd) then listening else bound
step sfd _ x = x

-- The socket after the calls of the lines, of which those with a negative reply change nothing.
abbrev pub state : String → List Line → List ℤ → Socket → Socket
state sfd [] replies x = x
state sfd (l ∷ ls) [] x = x
state sfd (checked c m ∷ ls) (r ∷ rs) x =
    state sfd ls rs (if is_negative r then x else step sfd c x)
state sfd (unchecked c ∷ ls) (r ∷ rs) x =
    state sfd ls rs (if is_negative r then x else step sfd c x)

-- A call that leaves every socket as it is.
abbrev is_other : Call → Bool
is_other (Call.socket v) = false
is_other (Call.bind v) = false
is_other (Call.listen v) = false
is_other _ = true

abbrev is_careful : List Line → Bool
is_careful [] = true
is_careful (checked c m ∷ ls) = is_careful ls
is_careful (unchecked c ∷ ls) = is_other c && is_careful ls

-- The socket after the checked calls, if they all succeed.
abbrev assured : String → List Line → Socket → Socket
assured sfd [] x = x
assured sfd (checked c m ∷ ls) x = assured sfd ls (step sfd c x)
assured sfd (unchecked c ∷ ls) x = assured sfd ls x

step-other : (sfd : String) (c : Call) (x : Socket) → is_other c ≡ true → step sfd c x ≡ x
step-other sfd (Call.socket v) x h = cc
step-other sfd (Call.setsockopt v) x h = refl
step-other sfd (Call.bind v) x h = cc
step-other sfd (Call.listen v) x h = cc
step-other sfd (Call.connect v) x h = refl
step-other sfd (Call.accept v) x h = refl
step-other sfd (Call.send v) x h = refl
step-other sfd (Call.recv v) x h = refl
step-other sfd (Call.unlink v) x h = refl

same_either_way : (b : Bool) (x : Socket) → (if b then x else x) ≡ x
same_either_way true x = refl
same_either_way false x = refl

both : (a b : Bool) → (a && b) ≡ true → (a ≡ true) × (b ≡ true)
both true b h = (refl, h)
both false b h = absurd cc

abbrev Ends : List Call × Outcome → Type 0
Ends r = r.1 ≡ started

never : {m : String} → ¬ (exited m ≡ started)
never h = cc

error_func-started :
    (r : ℤ) (m : String) (calls : List Call) (outcome : Outcome)
    → (error_func r m (calls, outcome)).1 ≡ started
    → (is_negative r ≡ false) × (outcome ≡ started)
unfolding error_func
error_func-started r m calls outcome h = elim (Bool-cases (is_negative r)) [
  | inl failed ↦
      absurd (never (subst (λ b. Ends (if b then ([], exited m) else (calls, outcome))) failed h))
  | inr ok ↦ (ok, subst (λ b. Ends (if b then ([], exited m) else (calls, outcome))) ok h)
]

state-assured :
    (sfd : String) (ls : List Line) (rs : List ℤ) (x : Socket)
    → is_careful ls ≡ true
    → (start ls rs).1 ≡ started
    → state sfd ls rs x ≡ assured sfd ls x
unfolding start
state-assured sfd [] rs x h e = refl
state-assured sfd (l ∷ ls) [] x h e = absurd cc
state-assured sfd (checked c m ∷ ls) (r ∷ rs) x h e =
    let (ok, later) = error_func-started r m (start ls rs).0 (start ls rs).1 e in
    rw ok (state-assured sfd ls rs (step sfd c x) h later)
state-assured sfd (unchecked c ∷ ls) (r ∷ rs) x h e =
    let (other, careful) = both (is_other c) (is_careful ls) h in
    rw (step-other sfd c x other, same_either_way (is_negative r) x)
      (state-assured sfd ls rs x careful e)

-- The variable of the socket.
abbrev pub sfd_of : Server → String
sfd_of Server.csemulti_s_cs = "sfdcs"
sfd_of Server.csemulti_e_se = "sfdse"
sfd_of _ = "sfd"

startup-is_careful : (server : Server) → is_careful (startup server) ≡ true
startup-is_careful Server.csemulti_c = refl
startup-is_careful Server.csemulti_s = refl
startup-is_careful Server.csemulti_s_cs = refl
startup-is_careful Server.csemulti_e = refl
startup-is_careful Server.csemulti_e_se = refl
startup-is_careful Server.csemulti_tc = refl
startup-is_careful Server.bs_server = refl
startup-is_careful Server.bs_backserver = refl
startup-is_careful Server.tss_mainserver = refl
startup-is_careful Server.tss_server = refl

startup-assured : (server : Server) → assured (sfd_of server) (startup server) closed ≡ listening
startup-assured Server.csemulti_c = refl
startup-assured Server.csemulti_s = refl
startup-assured Server.csemulti_s_cs = refl
startup-assured Server.csemulti_e = refl
startup-assured Server.csemulti_e_se = refl
startup-assured Server.csemulti_tc = refl
startup-assured Server.bs_server = refl
startup-assured Server.bs_backserver = refl
startup-assured Server.tss_mainserver = refl
startup-assured Server.tss_server = refl

-- Whatever the kernel replies: if one of the servers c.c, s.c, e.c, tc.c, bs/server.c, bs/backserver.c,
-- tss/mainserver.c and tss/server.c comes to its loop, its socket `sfd` has been made, then bound, and then made to
-- listen, each with success, and so has `sfdcs` of s.c and `sfdse` of e.c.
pub start_listens :
    (server : Server) (replies : List ℤ)
    → (start (startup server) replies).1 ≡ started
    → state (sfd_of server) (startup server) replies closed ≡ listening
start_listens server replies h =
    state-assured (sfd_of server) (startup server) replies closed (startup-is_careful server) h
    ∙ startup-assured server
