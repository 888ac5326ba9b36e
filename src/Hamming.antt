-- ===== src/Hamming.antt =====
-- errcorrection/hamming.cpp: a Hamming code, the error that the user asks for, and
-- the position that the checks compute for it. `df` is the list of its cells from `df[0]`, which the
-- program leaves as it is; -1 marks a redundancy bit that is still to be computed.
pub mod Digits
pub mod Frame
pub mod Checks
pub mod Scan
pub mod Error
mod Tests
use mathlib.Core.List.{reverse}
use cn.Base.{
  ℕ, zero, suc, ◌+◌, ◌*◌, ◌/◌, ◌%◌, Bool, true, false, ◌&&◌, List, [], ◌∷◌, ◌++◌, ◌==◌, Option,
  none, some, ◌>>=◌, if◌then◌else◌, leb, ltb, ◌-◌, length, get_or, get_elem?, set, take, drop,
  replicate,
}
use cn.Base.Int.{ℤ, pos, negsuc, eqb_ℤ, bit}

abbrev pub mark : ℤ
mark = negsuc 0

-- The loop that introduces redundancy bits: the cells from `df[i]`, and how often `nrb` is raised. It goes
-- on while data is left.
unfoldable pub new_frame : ℕ → ℕ → ℕ → List ℤ → Option (List ℤ × ℕ)
new_frame fuel k i [] = some ([], 0)
new_frame zero k i (x ∷ db) = none
new_frame (suc fuel) k i (x ∷ db) =
    let redundant = i == k in
    let later = if redundant then x ∷ db else db in
    let rest = new_frame fuel (if redundant then k * 2 else k) (i + 1) later in
    do (df, nrb) ← rest; some ((if redundant then mark else x) ∷ df, bit redundant + nrb)

-- "get position of 1": the value to which `i4`, -1 at first, is raised. A halving per unit of `i7` is
-- more than enough.
unfoldable pub position_of_1 : ℕ → ℕ → ℕ
position_of_1 zero i7 = 0
position_of_1 (suc fuel) i7 =
    let next = position_of_1 fuel (i7 / 2) in if leb i7 1 then 0 else suc next

-- "find binary conversion": the digits of `i7` are written over the cells of `a1` that are left, until 1 is
-- reached. There is no result where a digit is written behind the array.
unfoldable pub convert : List ℤ → ℕ → Option (List ℤ)
convert a1 zero = some a1
convert [] (suc n) = none
convert (a ∷ a1) (suc n) =
    let i7 = suc n in
    let rest = convert a1 (i7 / 2) in
    if i7 == 1 then some (pos 1 ∷ a1) else rest >>= λ r. some (pos (i7 % 2) ∷ r)

-- `a1` after the reset and the conversion of `i2`.
unfoldable pub binary : ℕ → Option (List ℤ)
unfolding convert
binary i2 = convert (replicate 4 mark) i2

-- The loop over i2: `i3`, the number of ones at the positions that have the bit `i4`.
unfoldable pub count_ones : ℕ → ℕ → List ℤ → Option ℕ
unfolding binary
count_ones i4 i2 [] = some 0
count_ones i4 i2 (x ∷ df) = do
  a1 ← binary i2
  a ← get_elem? a1 i4
  i3 ← count_ones i4 (i2 + 1) df
  some (bit (eqb_ℤ a (pos 1) && eqb_ℤ x (pos 1)) + i3)

-- The body of the loop over i1 at a redundancy bit: `df` with the bit, and the bit as the next of `rb`.
unfoldable pub compute_bit : ℕ → List ℤ → Option (List ℤ × List ℤ)
unfolding count_ones position_of_1
compute_bit i1 df = do
  i3 ← count_ones (position_of_1 i1 i1) 1 (drop 1 df)
  let r = pos (if i3 % 2 == 0 then 0 else 1)
  some (set df i1 r, r ∷ [])

-- The first scan, for i1 and the `n - 1` positions behind it, with what it writes to `rb`. It computes the
-- bits that are marked.
unfoldable pub scan_marks : ℕ → ℕ → List ℤ → Option (List ℤ × List ℤ)
unfolding compute_bit
scan_marks zero i1 df = some (df, [])
scan_marks (suc n) i1 df = do
  (df', r) ← if eqb_ℤ (get_or df i1 (pos 0)) mark then compute_bit i1 df else some (df, [])
  (last, rb) ← scan_marks n (i1 + 1) df'
  some (last, r ++ rb)

-- The second scan, which computes the bits at the powers of two.
unfoldable pub scan_powers : ℕ → ℕ → ℕ → List ℤ → Option (List ℤ × List ℤ)
unfolding compute_bit
scan_powers zero k i1 df = some (df, [])
scan_powers (suc n) k i1 df = do
  (df', r) ← if i1 == k then compute_bit i1 df else some (df, [])
  (last, rb) ← scan_powers n (if i1 == k then k * 2 else k) (i1 + 1) df'
  some (last, r ++ rb)

-- The cells of `df`.
abbrev pub frame_cells : ℕ
frame_cells = 30

-- The two writes of "Change bit": the condition `df[eb]=1` is an assignment, so that the second one follows it. A cell
-- behind those of the frame is not read again.
unfoldable pub clear_bit : ℕ → List ℤ → List ℤ
clear_bit eb df = set (set df eb (pos 1)) eb (pos 0)

-- "Change bit", of a bit from 0 on. There is no result where `df[eb]` is behind the array.
unfoldable pub change_bit : ℕ → List ℤ → Option (List ℤ)
unfolding clear_bit
change_bit eb df = if ltb eb frame_cells then some (clear_bit eb df) else none

-- "Calculate error position", from the first `nrb` cells of `rb`.
unfoldable pub error_position : ℕ → List ℤ → ℕ
error_position j [] = 0
error_position j (r ∷ rb) = (if eqb_ℤ r (pos 1) then j else 0) + error_position (j * 2) rb

-- The frame that is sent, the frame with the changed bit, the redundancy bits and the error position.
pub record Correction : Type 0 where
  pub sent : List ℤ
  pub changed : List ℤ
  pub redundancy : List ℤ
  pub ep : ℕ

-- The frame with its redundancy bits, from the bits as they are typed: they are read into `db` from the last
-- cell down, and reversed. `rb` is what the first scan leaves there.
unfoldable pub encode : ℤ → List ℤ → Option (List ℤ × List ℤ × ℕ)
unfolding new_frame scan_marks
encode first input =
    let db = reverse (reverse input) in
    do
      (df, nrb) ← new_frame (2 * length db + 2) 1 1 db
      (sent, rb) ← scan_marks (length df) 1 (first ∷ df)
      some (sent, rb, nrb)

-- `main`, with the cell `df[0]`; `l` is the number of the other cells.
unfoldable pub main : ℤ → List ℤ → ℕ → Option Correction
unfolding encode change_bit scan_powers error_position
main first input eb = do
  (df, rb, nrb) ← encode first input
  changed ← change_bit eb df
  (last, bits) ← scan_powers (length df - 1) 1 1 changed
  let redundancy = take nrb (bits ++ drop (length bits) rb)
  some (record {
    sent = df;
    changed = changed;
    redundancy = redundancy;
    ep = error_position 1 redundancy;
  })
