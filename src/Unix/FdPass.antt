-- ===== src/Unix/FdPass.antt =====
-- send_file_descriptor and recv_file_descriptor, which several servers have word for word (the lines
-- are those of unixsockets/csemulti/s.c): a descriptor travels as control data of a message.
pub mod Roundtrip
mod Tests
use cn.Base.{ℕ, Bool, true, false, ◌≡◌, refl, List, [], ◌∷◌, ◌&&◌, if◌then◌else◌}
use cn.Base.Int.{ℤ, pos, negsuc}

pub data Level : Type 0 where
  sol_socket other_level : Level

pub data Kind : Type 0 where
  scm_rights other_kind : Kind

-- `struct cmsghdr` with its data.
pub record Control : Type 0 where
  pub level : Level
  pub kind : Kind
  pub content : ℤ

-- `struct msghdr`: the bytes of the one `iovec`, and the control messages.
pub record Message : Type 0 where
  pub bytes : List ℕ
  pub controls : List Control

-- The message that `sendmsg` is given: one blank, and the descriptor.
unfoldable pub send_file_descriptor : ℤ → Message
send_file_descriptor fd_to_send = record {
  bytes = 0x20 ∷ [];
  controls = record { level = sol_socket; kind = scm_rights; content = fd_to_send } ∷ [];
}

abbrev pub is_rights : Control → Bool
is_rights c = is_sol_socket c.level && is_scm_rights c.kind
  where
    is_sol_socket : Level → Bool
    is_sol_socket sol_socket = true
    is_sol_socket other_level = false

    is_scm_rights : Kind → Bool
    is_scm_rights scm_rights = true
    is_scm_rights other_kind = false

-- The loop over the control messages; -1 if none carries a descriptor.
unfoldable pub find_rights : List Control → ℤ
find_rights [] = negsuc 0
find_rights (c ∷ cs) = if is_rights c then c.content else find_rights cs

-- What `recvmsg` gives: the end of the stream, an error, or a message of so many bytes.
pub data Received : Type 0 where
  closed : Received
  failed : ℕ → Received
  got : ℕ → Message → Received

-- `if((res = recvmsg(socket, &message, 0)) <= 0) return res;`, and the loop.
unfoldable pub recv_file_descriptor : Received → ℤ
unfolding find_rights
recv_file_descriptor closed = pos 0
recv_file_descriptor (failed n) = negsuc n
recv_file_descriptor (got n message) = find_rights message.controls
