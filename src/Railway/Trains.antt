-- ===== src/Railway/Trains.antt =====
-- exam/4: the station master sm.c, the trains t.c and the platforms p.c, over named fifos. A platform has read what was
-- written before the next train comes, and broadcasts before what a train writes; the fifos are open.
use cn.Base.{
  ℕ, zero, suc, ◌+◌, Bool, Option, none, some, List, [], ◌∷◌, ◌++◌, ◌==◌, if◌then◌else◌, get_elem?,
  ◌>>=◌,
}
use cn.Base.Int.{pos, sub_ℕ}
use cn.Nfs.Text.{text, equal}
use cn.Decimal.{print_int}
use cn.Railway.{tell}

-- What is written to which fifo.
abbrev pub Writes : Type 0
Writes = List (List ℕ × List ℕ)

-- `broadcast_plat`, for `left` platforms from i on.
unfoldable pub broadcast_plat : ℕ → ℕ → Writes
broadcast_plat zero i = []
broadcast_plat (suc left) i =
    (text "platbrod" ++ print_int (pos (i + 1)), text "train coming") ∷ broadcast_plat left (i + 1)

-- A train that is ready: the broadcasts, and what the train is told, if there is a platform.
unfoldable pub receive_train : List Bool → Option (Writes × List ℕ)
unfolding broadcast_plat
receive_train plat_available = do
  j ← tell plat_available
  some (broadcast_plat 3 0, text "plat" ++ print_int (pos (j + 1)))

-- The body of the loop of t.c, for what it reads: `plat` is the fifth character as a digit.
unfoldable pub use_platform : List ℕ → Writes
use_platform platform_availablebuffer = to_platform (get_elem? platform_availablebuffer 4)
  where
    to_platform : Option ℕ → Writes
    to_platform none = []
    to_platform (some c) =
        let infobuffer = text "platinfo" ++ print_int (sub_ℕ c 48) in
        (infobuffer, text "sequence") ∷ (infobuffer, text "leaving") ∷ []

-- What p.c, with its number as the argument, prints of one write. Of a write to its second fifo it prints the
-- `revents` first, which are what `poll` gives for that message.
unfoldable pub show_write : (List ℕ → ℕ) → List ℕ → List ℕ × List ℕ → List (List ℕ)
show_write revents argument (name, message) =
    if equal name (text "platbrod" ++ argument)
    then message ∷ []
    else if equal name (text "platinfo" ++ argument)
    then print_int (pos (revents message))
      ∷ (if equal message (text "sequence") then text "got sequence" else text "train is leaving")
      ∷ []
    else []

unfoldable pub show_writes : (List ℕ → ℕ) → List ℕ → Writes → List (List ℕ)
unfolding show_write
show_writes revents argument [] = []
show_writes revents argument (w ∷ writes) =
    show_write revents argument w ++ show_writes revents argument writes

-- What a platform prints for a train.
abbrev pub show_train : (List ℕ → ℕ) → List ℕ → Option (Writes × List ℕ) → List (List ℕ)
show_train revents argument none = []
show_train revents argument (some (broadcasts, told)) =
    show_writes revents argument (broadcasts ++ use_platform told)

-- So many trains, one after another: what a platform prints.
unfoldable pub run_trains : (List ℕ → ℕ) → List Bool → List ℕ → ℕ → List (List ℕ)
unfolding receive_train use_platform show_writes
run_trains revents plat_available argument zero = []
run_trains revents plat_available argument (suc trains) =
    show_train revents argument (receive_train plat_available)
    ++ run_trains revents plat_available argument trains

-- The four lines of the platform for a train that stops there.
abbrev pub stop_lines : (List ℕ → ℕ) → List (List ℕ)
stop_lines revents =
    print_int (pos (revents (text "sequence")))
    ∷ text "got sequence"
    ∷ print_int (pos (revents (text "leaving")))
    ∷ text "train is leaving"
    ∷ []

-- What platform k prints for a train that is sent to platform j + 1.
abbrev pub shown : (List ℕ → ℕ) → ℕ → ℕ → List (List ℕ)
shown revents k j = text "train coming" ∷ (if k == j + 1 then stop_lines revents else [])

-- So often the same lines.
abbrev pub repeat : ℕ → List (List ℕ) → List (List ℕ)
repeat zero lines = []
repeat (suc n) lines = lines ++ repeat n lines

-- What a platform prints for a train, with what the train is told.
abbrev pub shown_of : (List ℕ → ℕ) → ℕ → Option ℕ → List (List ℕ)
shown_of revents k none = []
shown_of revents k (some j) = shown revents k j
