-- ===== src/Unix/FdPass/Tests.antt =====
-- A descriptor sent over a connection arrives.
use cn.Base.{◌≡◌, refl, List, [], ◌∷◌}
use cn.Base.Int.{pos, negsuc}
use cn.Unix.FdPass.{Control, find_rights, other_kind, sol_socket, recv_file_descriptor, got}

abbrev credentials : List Control
credentials = record { level = sol_socket; kind = other_kind; content = pos 9 } ∷ []

no_descriptor :
    recv_file_descriptor (got 0 (record { bytes = 32 ∷ []; controls = credentials })) ≡ negsuc 0
unfolding recv_file_descriptor find_rights
no_descriptor = refl
