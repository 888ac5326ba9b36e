-- ===== src/Nfs/Server/Handlers.antt =====
-- rpc/nfs/nfs_server.c: the handlers as sequences of system calls, each of which depends on the replies
-- to the earlier ones. The directory listing of nfs_ls comes as one reply; what getattr appends to the
-- permissions is left out. An empty buffer of a result stands for one that the handler does not write.
use cn.Base.{
  ℕ, ◌+◌, Bool, false, Option, none, some, List, [], ◌∷◌, ◌++◌, ltb, ◌==◌, length, if◌then◌else◌,
}
use cn.Base.Int.{ℤ, pos, negsuc, is_negative}
use cn.Nfs.Server.{is_type, print_perms}
use cn.Nfs.Text.{text}

pub data Call : Type 0 where
  access : List ℕ → ℕ → Call
  stat read_directory open_write open_read chdir remove : List ℕ → Call
  chmod mkdir creat : List ℕ → ℕ → Call
  lseek : ℤ → ℕ → Call
  write : ℤ → List ℕ → ℕ → Call
  read : ℤ → ℕ → Call
  close : ℤ → Call

-- The modes of `access`.
abbrev pub f_ok : ℕ
f_ok = 0

abbrev pub w_ok : ℕ
w_ok = 2

abbrev pub r_ok : ℕ
r_ok = 4

-- What a call returns, with the mode that `stat` stores, the bytes that `read` stores, and the names.
pub record Reply : Type 0 where
  pub value : ℤ
  pub mode : ℕ
  pub content : List ℕ
  pub names : List (List ℕ)

-- A handler ends with the number or size and the buffer of its result, writes beyond the buffer, or
-- makes a call.
pub data Handler : Type 0 where
  done : ℤ → List ℕ → Handler
  overrun : Handler
  calls : Call → (Reply → Handler) → Handler

abbrev pub minus_one : ℤ
minus_one = negsuc 0

-- `dp->d_name[0] == '.'`
abbrev pub is_hidden : List ℕ → Bool
is_hidden [] = false
is_hidden (c ∷ name) = c == 46

-- The loop of nfs_ls over the names, with the size and the buffer so far. The buffer has 1024 bytes, the last one
-- for the 0; `none` is a `strcat` behind it.
unfoldable pub list_names : ℕ → List ℕ → List (List ℕ) → Option (ℕ × List ℕ)
list_names size buffer [] = some (size, buffer)
list_names size buffer (name ∷ names) =
    let next = buffer ++ (name ++ 10 ∷ []) in
    let skipped = list_names size buffer names in
    let later = list_names (size + 1) next names in
    if is_hidden name then skipped else if ltb (length next) 1024 then later else none

abbrev pub listed : Option (ℕ × List ℕ) → Handler
listed none = overrun
listed (some (size, buffer)) = done (pos size) buffer

unfoldable pub nfs_ls : List ℕ → Handler
nfs_ls path = calls (access path (f_ok + r_ok)) (λ a.
    if is_negative a.value
    then done minus_one (text "File not exist or access denied !")
    else calls (stat path) (λ s.
      if is_type s.mode 4
      then calls (read_directory path) (λ d. listed (list_names 0 [] d.names))
      else done minus_one (text "Path is not a directory !")))

-- The result of `lseek` is overwritten by the one of `write`.
unfoldable pub nfs_write : List ℕ → List ℕ → ℕ → ℕ → Handler
nfs_write filename buffer offset size = calls (access filename (w_ok + f_ok)) (λ a.
    if is_negative a.value
    then done minus_one []
    else calls (stat filename) (λ s.
      if is_type s.mode 8
      then calls (open_write filename) (λ fd. calls (lseek fd.value offset) (λ l.
        calls (write fd.value buffer size) (λ w. calls (close fd.value) (λ c. done w.value []))))
      else done minus_one []))

unfoldable pub nfs_read : List ℕ → ℕ → ℕ → Handler
nfs_read filename offset size = calls (access filename (f_ok + r_ok)) (λ a.
    if is_negative a.value
    then done minus_one []
    else calls (stat filename) (λ s.
      if is_type s.mode 8
      then calls (open_read filename) (λ fd. calls (lseek fd.value offset) (λ l.
        if is_negative l.value
        then done minus_one []
        else calls (read fd.value size)
            (λ r. calls (close fd.value) (λ c. done r.value r.content))))
      else done minus_one []))

-- The handlers that return what one call returns.
abbrev pub result_of : Call → Handler
result_of c = calls c (λ r. done r.value [])

abbrev pub nfs_cd : List ℕ → Handler
nfs_cd path = result_of (chdir path)

-- getattr up to the permissions.
unfoldable pub nfs_getattr : List ℕ → Handler
nfs_getattr path = calls (access path f_ok) (λ a.
    if is_negative a.value
    then done minus_one (text "file or dir not exist !")
    else calls (stat path) (λ s. done (pos 1) (print_perms s.mode)))

unfoldable pub nfs_setattr : List ℕ → ℕ → Handler
nfs_setattr path perm =
    calls (access path f_ok)
      (λ a. if is_negative a.value then done minus_one [] else result_of (chmod path perm))

abbrev pub nfs_remove : List ℕ → Handler
nfs_remove path = result_of (remove path)

abbrev pub nfs_mkdir : List ℕ → ℕ → Handler
nfs_mkdir path perm = result_of (mkdir path perm)

abbrev pub nfs_touch : List ℕ → ℕ → Handler
nfs_touch path perm = result_of (creat path perm)
