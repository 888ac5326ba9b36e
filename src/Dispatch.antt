-- ===== src/Dispatch.antt =====
-- multiserver: multiserver.c reads requests from a fifo and starts the program s1.c for them, which adds two
-- numbers and writes the sum to the fifo of the client. `readbuf` is cleared after every request, so that a
-- request is the text that the client wrote.
pub mod Sum
mod Tests
use cn.Base.{
  ℕ, zero, suc, ◌+◌, ◌-◌, Bool, true, false, ◌||◌, Option, none, some, List, [], ◌∷◌, ◌>>=◌, ◌==◌,
  if◌then◌else◌, ltb, leb, length, get_elem?,
}
use cn.Base.Int.{ℤ, add_int, in_int}
use cn.Nfs.Text.{text, equal, strtok, atoi}
use cn.Decimal.{print_int}

-- The delimiter "|".
abbrev pub is_bar : ℕ → Bool
is_bar c = c == 124

-- The loop that copies the tokens into `argv`, with the number of its cells that are left; the last one is for
-- NULL. A token that does not fit the 20 bytes of its copy, or its cell, leaves no result.
unfoldable pub read_argv : ℕ → Option (List ℕ × List ℕ) → Option (List (List ℕ))
read_argv room none = some []
read_argv zero (some (token, later)) = none
read_argv (suc room) (some (token, later)) =
    let rest = read_argv room (strtok is_bar later) in
    if leb 20 (length token) || (room == 0) then none else rest >>= λ argv. some (token ∷ argv)

-- What a request leads to: nothing, or `execv` of s1 in a child process, with its arguments.
pub data Action : Type 0 where
  ignore : Action
  exec_s1 : List (List ℕ) → Action

-- The body of the loop. There is no result for a request without a token, where `strcmp` gets NULL.
unfoldable pub dispatch : List ℕ → Option Action
unfolding read_argv
dispatch readbuf = chosen (strtok is_bar readbuf)
  where
    chosen : Option (List ℕ × List ℕ) → Option Action
    chosen none = none
    chosen (some (token, later)) =
        let with_argv : Option Action =
          read_argv 10 (some (token, later)) >>= λ argv. some (exec_s1 argv) in
        if equal token (text "s1")
        then some (exec_s1 [])
        else if equal token (text "s2")
        then with_argv
        else some ignore

-- `atoi`, whose result an `int` holds.
unfoldable pub int_atoi : List ℕ → Option ℤ
int_atoi s = let n = atoi s in if in_int n then some n else none

-- `main` of s1.c: what it writes. `atoi(NULL)` has no result, nor has a number or a sum that is no `int`.
unfoldable pub s1 : List (List ℕ) → Option (List ℕ)
unfolding int_atoi
s1 argv = do
  a ← get_elem? argv 1
  b ← get_elem? argv 2
  m ← int_atoi a
  n ← int_atoi b
  sum ← add_int m n
  some (print_int sum)

-- A request and what is written for it.
unfoldable pub respond : List ℕ → Option (List ℕ)
unfolding dispatch s1
respond readbuf = finish (dispatch readbuf)
  where
    finish : Option Action → Option (List ℕ)
    finish none = none
    finish (some ignore) = some []
    finish (some (exec_s1 argv)) = s1 argv
