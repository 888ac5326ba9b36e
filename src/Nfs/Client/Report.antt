-- ===== src/Nfs/Client/Report.antt =====
-- rpc/nfs/nfs_client.c: what the client tells the user about the answer to a call.
use cn.Base.{ℕ, ◌≡◌, false, List, ltb, if◌then◌else◌, arith}
use cn.Base.Int.{ℤ, is_negative}
use cn.Nfs.Text.{to_unsigned}
use cn.Nfs.Client.{Request, ls, cd, getattr, remove, read, write, setattr, mkdir, touch}

-- The pointer that a remote call returns: null, to an `int`, or to a `bufnode`, whose size is unsigned.
pub data Answer : Type 0 where
  null : Answer
  number : ℤ → Answer
  node : ℕ → List ℕ → Answer

-- The texts, with the values in them.
pub data Report : Type 0 where
  call_failed reading_error writing_error wrong_path changed attr_error attr_set remove_error
        removed create_error created :
      Report
  listed read_bytes : ℕ → List ℕ → Report
  attributes : List ℕ → Report
  written : ℤ → Report

abbrev pub sign : ℤ → Report → Report → Report
sign v failure success = if is_negative v then failure else success

-- The end of each case of the `switch`. An answer of the other type cannot be decoded, and is null.
unfoldable pub report : Request → Answer → Report
report (ls w) (node size buffer) = listed size buffer
report (read w o n) (node size buffer) =
    if ltb size 0 then reading_error else read_bytes size buffer
report (write w m o n) (number v) = sign v writing_error (written v)
report (cd w) (number v) = sign v wrong_path changed
report (getattr w) (node size buffer) = attributes buffer
report (setattr w p) (number v) = sign v attr_error attr_set
report (remove w) (number v) = sign v remove_error removed
report (mkdir w p) (number v) = sign v create_error created
report (touch w p) (number v) = sign v create_error created
report _ _ = call_failed

-- Whatever size the server sets, -1 for a failure included, the client reports that so many bytes were
-- read: the size that arrives is unsigned, and the test for an error is never true.
pub report_read_never_fails :
    (w : List ℕ) (o n : ℕ) (size : ℤ) (buffer : List ℕ)
    → report (read w o n) (node (to_unsigned size) buffer) ≡ read_bytes (to_unsigned size) buffer
unfolding report
report_read_never_fails w o n size buffer =
    let never : ltb (to_unsigned size) 0 ≡ false = ground arith in rw never
