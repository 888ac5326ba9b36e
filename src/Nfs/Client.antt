-- ===== src/Nfs/Client.antt =====
-- rpc/nfs/nfs_client.c: from a line of input to a remote call. What the user sees is left out.
pub mod Words
pub mod Octal
pub mod Commands
pub mod Report
mod Tests
use cn.Base.{
  take, ℕ, zero, suc, ◌+◌, ◌-◌, ◌*◌, Bool, true, false, not, Option, none, some, List, [], ◌∷◌,
  ◌++◌, leb, ltb, ◌==◌, length, if◌then◌else◌,
}
use mathlib.Core.List.{reverse}
use cn.Base.Int.{ℤ, pos, negsuc}
use cn.Nfs.Text.{text, equal, is_blank, is_blank_or_newline, strtok, strip, atoi, to_unsigned}

-- What getCommandType tells apart; `unknown` is its -1.
pub data CommandType : Type 0 where
  exit ls read write cd getattr setattr remove mkdir touch unknown : CommandType

unfoldable pub get_command_type : List ℕ → CommandType
get_command_type str =
    if equal (text "ls") str
    then ls
    else if equal (text "read") str
    then read
    else if equal (text "write") str
    then write
    else if equal (text "exit") str
    then exit
    else if equal (text "cd") str
    then cd
    else if equal (text "getattr") str
    then getattr
    else if equal (text "setattr") str
    then setattr
    else if equal (text "remove") str
    then remove
    else if equal (text "mkdir") str
    then mkdir
    else if equal (text "touch") str
    then touch
    else unknown

abbrev pub difference : ℕ → ℕ → ℤ
difference a b = if leb b a then pos (a - b) else negsuc (b - a - 1)

-- The loop of perm_bit, over the characters from the last one on: the sum of `args[i]*coff`, and the
-- sum of `'0'*coff` that is subtracted from it.
unfoldable pub perm_loop : ℕ → List ℕ → ℕ × ℕ
perm_loop coff [] = (0, 0)
perm_loop coff (c ∷ args) =
    let (plus, minus) = perm_loop (coff * 8) args in (c * coff + plus, 48 * coff + minus)

-- perm_bit, for numbers that an `int` can hold.
unfoldable pub perm_bit : List ℕ → ℤ
perm_bit args = let (plus, minus) = perm_loop 1 (reverse args) in difference plus minus

-- The arguments of the nine remote calls; permissions, offsets and sizes as they are sent.
pub data Request : Type 0 where
  ls cd getattr remove : List ℕ → Request
  read : List ℕ → ℕ → ℕ → Request
  write : List ℕ → List ℕ → ℕ → ℕ → Request
  setattr mkdir touch : List ℕ → ℕ → Request

-- One round of the loop of nfs_remote_1: the client ends, prints how the command is used, prints
-- "Invalid Command", calls the server, or overruns `filename[128]`; or it has passed a null pointer to
-- `strcmp`, for a line without a command.
pub data Round : Type 0 where
  quit usage invalid overrun null_pointer : Round
  call : Request → Round

abbrev pub max_args : ℕ
max_args = 4

-- A token in front of what is done with the rest of the line; without a token the loop breaks.
abbrev pub or_break : Option (List ℕ × List ℕ) → (List ℕ → List (List ℕ)) → List (List ℕ)
or_break none more = []
or_break (some (tok, rest)) more = tok ∷ more rest

-- The loop `for (i = 0; i < 4; ++i)`: `args`, of which there are `i`.
unfoldable pub read_args : ℕ → List ℕ → List (List ℕ)
read_args zero s = []
read_args (suc n) s = or_break (strtok is_blank s) (λ rest. read_args n rest)

-- `strcpy` into `filename`, which has room for 127 characters and the 0.
abbrev pub with_filename : List ℕ → Request → Round
with_filename name r = if ltb (length name) 128 then call r else overrun

-- The cases with one, two, three and four arguments.
unfoldable pub dispatch : CommandType → List (List ℕ) → Round
dispatch CommandType.exit args = quit
dispatch CommandType.ls (a ∷ []) = call (ls (strip a))
dispatch CommandType.read (a ∷ b ∷ c ∷ []) =
    with_filename (strip a) (read (strip a) (to_unsigned (atoi b)) (to_unsigned (atoi c)))
dispatch CommandType.write (a ∷ b ∷ c ∷ d ∷ []) =
    with_filename (strip a)
      (write (strip a) (strip b) (to_unsigned (atoi c)) (to_unsigned (atoi d)))
dispatch CommandType.cd (a ∷ []) = call (cd (strip a))
dispatch CommandType.getattr (a ∷ []) = call (getattr (strip a))
dispatch CommandType.setattr (a ∷ b ∷ []) =
    call (setattr (strip a) (to_unsigned (perm_bit (strip b))))
dispatch CommandType.remove (a ∷ []) = call (remove (strip a))
dispatch CommandType.mkdir (a ∷ b ∷ []) = call (mkdir (strip a) (to_unsigned (perm_bit (strip b))))
dispatch CommandType.touch (a ∷ b ∷ []) = call (touch (strip a) (to_unsigned (perm_bit (strip b))))
dispatch CommandType.unknown args = invalid
dispatch _ args = usage

-- `fgets(buffer, 1024, stdin)` of a line: what is longer is left to the next round.
abbrev pub fgets : List ℕ → List ℕ
fgets typed = take 1023 typed

-- One round, for the line that has been typed.
unfoldable pub nfs_remote : List ℕ → Round
nfs_remote typed = run (strtok is_blank_or_newline (fgets typed))
  where
    run : Option (List ℕ × List ℕ) → Round
    run none = null_pointer
    run (some (savecmd, rest)) = dispatch (get_command_type savecmd) (read_args max_args rest)
