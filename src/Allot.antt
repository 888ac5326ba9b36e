-- ===== src/Allot.antt =====
-- select_servers/multiserver/mainserver.c: the servers of two kinds, which clients ask for over fifos, are
-- handed out while there are some. A message is the text in the 100 bytes that a client writes; the numbers of
-- servers that `atoi` reads in the arguments are taken to be non-negative.
pub mod Granted
mod Tests
use cn.Base.{
  ℕ, zero, suc, ◌+◌, ◌-◌, Bool, true, false, ◌&&◌, ◌||◌, Option, none, some, List, [], ◌∷◌, ◌++◌,
  ◌==◌, if◌then◌else◌, leb, ltb, map,
}
use cn.Base.Int.{ℤ, pos, is_negative, eqb_ℤ}
use cn.Nfs.Text.{text, equal}

-- `strcasecmp(s, t) == 0`
abbrev pub lower : ℕ → ℕ
lower c = if leb 65 c && leb c 90 then c + 32 else c

unfoldable pub equal_ignoring_case : List ℕ → List ℕ → Bool
equal_ignoring_case s t = equal (map lower s) (map lower t)

-- `n_s1` and `n_s2`.
pub record Left : Type 0 where
  pub n_s1 : ℕ
  pub n_s2 : ℕ

-- The fifo whose name is written to the client.
pub data Grant : Type 0 where
  s1_fifo s2_fifo : Grant

-- A message that was read: what is left, and what the client is told, if anything.
unfoldable pub allocate : Left → List ℕ → Left × Option Grant
unfolding equal_ignoring_case
allocate l buf =
    if equal_ignoring_case buf (text "s1\n") && ltb 0 l.n_s1
    then (record l { n_s1 = l.n_s1 - 1 }, some s1_fifo)
    else if equal_ignoring_case buf (text "s2\n") && ltb 0 l.n_s2
    then (record l { n_s2 = l.n_s2 - 1 }, some s2_fifo)
    else (l, none)

-- The loop over j behind `select`, for the messages that are there: `none` for a fifo that is not ready, or
-- from which nothing was read.
unfoldable pub poll_clients : Left → List (Option (List ℕ)) → Left × List (Option Grant)
unfolding allocate
poll_clients l [] = (l, [])
poll_clients l (none ∷ clients) =
    let (last, grants) = poll_clients l clients in (last, none ∷ grants)
poll_clients l (some buf ∷ clients) =
    let (l', g) = allocate l buf in
    let (last, grants) = poll_clients l' clients in (last, g ∷ grants)

-- The endless loop, for the rounds in which `select` finds something.
unfoldable pub run_rounds : Left → List (List (Option (List ℕ))) → Left × List (List (Option Grant))
unfolding poll_clients
run_rounds l [] = (l, [])
run_rounds l (clients ∷ rounds) =
    let (l', grants) = poll_clients l clients in
    let (last, later) = run_rounds l' rounds in (last, grants ∷ later)

-- The results of the two calls of `mkfifo` and of the two of `open` for a client.
pub record Fifos : Type 0 where
  pub mkfifo : ℤ
  pub mkfifo_write : ℤ
  pub open_read : ℤ
  pub open_write : ℤ

-- The first loop over i: the descriptors `logs.fd` and `logwrite.fd`, or none where the program exits. The
-- arrays have ten cells.
unfoldable pub open_fifos : ℕ → List Fifos → Option (List ℤ × List ℤ)
open_fifos room [] = some ([], [])
open_fifos zero (f ∷ fifos) = none
open_fifos (suc room) (f ∷ fifos) = connected (open_fifos room fifos)
  where
    connected : Option (List ℤ × List ℤ) → Option (List ℤ × List ℤ)
    connected none = none
    connected (some (reads, writes)) =
        if eqb_ℤ f.mkfifo (pos 0) && eqb_ℤ f.mkfifo_write (pos 0)
        then if is_negative f.open_read || is_negative f.open_write
          then none
          else some (f.open_read ∷ reads, f.open_write ∷ writes)
        else none
