-- ===== src/Crc.antt =====
-- errcorrection/crc1.c: cyclic redundancy check by long division over arrays of digits.
-- Digits are the numbers that `scanf` reads, taken to be non-negative; `^` is C's exclusive or.
pub mod Linear
pub mod Roundtrip
pub mod Rows
pub mod Quotient
pub mod Keyed
mod Tests
use Prim.Native.Nat.{bit_xor}
use cn.Base.{
  ℕ, ◌+◌, Bool, true, ◌&&◌, ◌||◌, List, [], ◌∷◌, ◌++◌, not, ltb, leb, Option, none, some, ◌==◌,
  if◌then◌else◌, length, get_or, take, drop, replicate,
}

-- `for(j = 0; j <= n; j++) r[j] = r[j] ^ g[j];`
unfoldable pub xor_row : List ℕ → List ℕ → List ℕ
xor_row [] g = []
xor_row (x ∷ r) [] = x ∷ r
xor_row (x ∷ r) (y ∷ g) = bit_xor x y ∷ xor_row r g

-- `for(j = 0; j < n; j++) r[j] = r[j+1]; r[j] = a[i];`
unfoldable pub shift_in : List ℕ → ℕ → List ℕ
shift_in r b = drop 1 r ++ b ∷ []

-- One digit of the quotient, with the window after it: the branch on `r[0]`.
unfoldable pub reduce : List ℕ → List ℕ → ℕ × List ℕ
reduce g r = if get_or r 0 0 == 0 then (0, r) else (1, xor_row r g)

-- The loop `for(i = n; ...; i++)` on the window `r`, with the digits `a[n+1]`, ... still to come;
-- it returns `div` and the last window.
unfoldable pub divide : List ℕ → List ℕ → List ℕ → List ℕ × List ℕ
divide g r [] = let (q, s) = reduce g r in (q ∷ [], s)
divide g r (b ∷ bs) =
    let (q, s) = reduce g r in let (qs, t) = divide g (shift_in s b) bs in (q ∷ qs, t)

-- What the user types: the two degrees, and the digits of the generator and of the frame.
pub record Input : Type 0 where
  pub n : ℕ
  pub g : List ℕ
  pub m : ℕ
  pub a : List ℕ

-- The sender stops, or writes behind one of its arrays, or prints the quotient, the remainder `r[1..n]` and the
-- frame that it transmits.
pub data Sender : Type 0 where
  improper : Sender
  overrun : Sender
  sent : List ℕ → List ℕ → List ℕ → Sender

-- The condition `m<n || (g[0] && g[n]) == 0`.
unfoldable pub is_improper : Input → Bool
is_improper p = ltb p.m p.n || not (not (get_or p.g 0 0 == 0) && not (get_or p.g p.n 0 == 0))

-- The cells of `a`, `g` and `div`; `r` has more.
abbrev pub cells_of_a : ℕ
cells_of_a = 16

-- The first half of `main`, for degrees whose digits the arrays hold: zeros are appended, the division runs, and
-- `r[1..n]` overwrites them.
unfoldable pub send : Input → Sender
unfolding is_improper
send p =
    let padded = p.a ++ replicate p.n 0 in
    let (quotient, window) = divide p.g (take (p.n + 1) padded) (drop (p.n + 1) padded) in
    let transmitted = sent quotient (drop 1 window) (p.a ++ drop 1 window) in
    if ltb p.n cells_of_a && ltb p.m cells_of_a
    then (if is_improper p
        then improper
        else if ltb (p.m + p.n) cells_of_a
        then transmitted
        else overrun)
    else overrun

-- `flag` stays 1 if no digit of the remainder is set.
unfoldable pub all_zero : List ℕ → Bool
all_zero [] = true
all_zero (x ∷ r) = (x == 0) && all_zero r

-- The second half of `main`, for digits that `a` holds: they overwrite its first cells, and the loop runs from n up to
-- the degree of the received frame, or not at all. The last part is `flag`.
unfoldable pub receive_digits : ℕ → List ℕ → List ℕ → List ℕ → List ℕ × List ℕ × Bool
receive_digits n g a frame =
    let cells = frame ++ drop (length frame) a in
    let (quotient, window) =
      if ltb n (length frame)
      then divide g (take (n + 1) cells) (drop (n + 1) frame)
      else ([], take (n + 1) cells) in
    (quotient, drop 1 window, all_zero (drop 1 window))

-- There is no result for a frame that is longer than `a`.
unfoldable pub receive : ℕ → List ℕ → List ℕ → List ℕ → Option (List ℕ × List ℕ × Bool)
unfolding receive_digits
receive n g a frame =
    let received = receive_digits n g a frame in
    if leb (length frame) cells_of_a then some received else none
