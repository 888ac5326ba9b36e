-- ===== src/Readers.antt =====
-- The programs that print what comes over several descriptors: allinone/server.c and exam/5/allinone/server.c, which
-- are the same, exam/3/server.c, selectservers/allinone/server.c, and logserver/logserver.c with server.c, which
-- writes to its fifos. A round has, for every descriptor, the bytes that `read` finds there if it is ready, and
-- none of them at the end of a file.
pub mod Buffer
pub mod Lines
pub mod Logging
mod Tests
use cn.Base.{
  ℕ, zero, suc, ◌+◌, ◌-◌, Bool, true, false, ◌&&◌, ◌||◌, Option, none, some, List, [], ◌∷◌, ◌++◌,
  ◌==◌, if◌then◌else◌, ltb, replicate, ◌>>=◌,
}

-- `read` into a buffer: as many bytes as it has cells.
abbrev pub overwrite : List ℕ → List ℕ → List ℕ
overwrite [] buf = buf
overwrite (b ∷ bytes) [] = []
overwrite (b ∷ bytes) (c ∷ buf) = b ∷ overwrite bytes buf

abbrev pub has_zero : List ℕ → Bool
has_zero [] = false
has_zero (c ∷ s) = c == 0 || has_zero s

abbrev pub before_zero : List ℕ → List ℕ
before_zero [] = []
before_zero (c ∷ s) = let rest = before_zero s in if c == 0 then [] else c ∷ rest

-- `fprintf(stdout,"%s\n",readbuf)`: `none` if it reads behind the buffer.
abbrev pub print_text : List ℕ → Option (List ℕ)
print_text buf = if has_zero buf then some (before_zero buf) else none

-- `memset(readbuf,0,sizeof(readbuf))`
abbrev pub cleared : ℕ → List ℕ
cleared size = replicate size 0

-- The loop over i, for the descriptors from i on, of which `watched` ones are waited for: the lines that are
-- printed, and the buffer.
unfoldable pub read_ready :
    ℕ → (ℕ → Bool) → ℕ → List (Option (List ℕ)) → List ℕ → Option (List (List ℕ) × List ℕ)
read_ready size watched i [] readbuf = some ([], readbuf)
read_ready size watched i (none ∷ fdp) readbuf = read_ready size watched (i + 1) fdp readbuf
read_ready size watched i (some bytes ∷ fdp) readbuf =
    let read =
      (print_text (overwrite bytes readbuf) >>= λ line.
      read_ready size watched (i + 1) fdp (cleared size) >>= λ r. some (line ∷ r.0, r.1)) in
    let others = read_ready size watched (i + 1) fdp readbuf in if watched i then read else others

-- The endless loop.
unfoldable pub read_rounds :
    ℕ → (ℕ → Bool) → List (List (Option (List ℕ))) → List ℕ → Option (List (List ℕ))
unfolding read_ready
read_rounds size watched [] readbuf = some []
read_rounds size watched (fdp ∷ rounds) readbuf = do
  (lines, readbuf') ← read_ready size watched 0 fdp readbuf
  later ← read_rounds size watched rounds readbuf'
  some (lines ++ later)

abbrev pub every : ℕ → Bool
every i = true

-- allinone/server.c, with four descriptors, and logserver.c, with one for each argument. `readbuf` is global.
unfoldable pub allinone : List (List (Option (List ℕ))) → Option (List (List ℕ))
unfolding read_rounds
allinone rounds = read_rounds 100 every rounds (cleared 100)

-- exam/3/server.c
unfoldable pub five_pipes : List (List (Option (List ℕ))) → Option (List (List ℕ))
unfolding read_rounds
five_pipes rounds = read_rounds 30 every rounds (cleared 30)

-- selectservers/allinone/server.c: `fdp` is all 0 when argc-1 of its cells are first put into `readset`, so that the
-- first round waits for the keyboard, if for anything, and later ones for the first argc-1 descriptors.
unfoldable pub select_allinone : ℕ → List (List (Option (List ℕ))) → Option (List (List ℕ))
unfolding read_rounds
select_allinone argc [] = some []
select_allinone argc (fdp ∷ rounds) = do
  (lines, readbuf) ← read_ready 100 (λ i. i == 0 && ltb 1 argc) 0 fdp (cleared 100)
  later ← read_rounds 100 (λ i. ltb i (argc - 1)) rounds readbuf
  some (lines ++ later)

-- The loop over j of logserver/server.c, for the clients from j on: what is written to whose log, with the buffer.
unfoldable pub log_to_all : ℕ → ℕ → List ℕ → List (ℕ × List ℕ)
log_to_all zero j readbuf = []
log_to_all (suc left) j readbuf = (j, readbuf) ∷ log_to_all left (j + 1) (cleared 100)
