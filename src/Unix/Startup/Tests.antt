-- ===== src/Unix/Startup/Tests.antt =====
-- The startup of server c: all calls but an `unlink` succeed, and its `bind` fails.
use cn.Base.{◌≡◌, refl, ◌∷◌, [], List}
use cn.Base.Int.{ℤ, pos, negsuc}
use cn.Unix.Startup.{Server, exited, start, startup, error_func}
use cn.Unix.Startup.Listening.{closed, listening, state, sfd_of, start_listens}

abbrev no_path : List ℤ
no_path = pos 3 ∷ pos 0 ∷ pos 30 ∷ pos 4 ∷ negsuc 1 ∷ pos 0 ∷ pos 0 ∷ pos 5 ∷ pos 30 ∷ []

start_listens_example :
    state (sfd_of Server.csemulti_c) (startup Server.csemulti_c) no_path closed ≡ listening
unfolding start error_func
start_listens_example = start_listens Server.csemulti_c no_path refl

abbrev bind_fails : List ℤ
bind_fails = pos 3 ∷ pos 0 ∷ pos 30 ∷ pos 4 ∷ pos 0 ∷ negsuc 97 ∷ pos 0 ∷ pos 0 ∷ pos 0 ∷ []

bind_error : (start (startup Server.csemulti_c) bind_fails).1 ≡ exited "bind error"
unfolding start error_func
bind_error = refl
