-- ===== src/Sums.antt =====
-- rpc/arraysum, end/rpc (add) and rpc/square: client and server of each. The stubs of rpcgen hand the argument to
-- the server's function as it is, and its result back; an array has the size of its .x file, which is
-- 100 for arraysum and 128 for end/rpc, and is an argument here, with what stands in it before. A sum that is out of
-- the range of an `int` leaves no result.
pub mod Totals
mod Tests
use cn.Base.{
  ℕ, zero, suc, ◌+◌, Bool, true, false, Option, none, some, List, [], ◌∷◌, ◌++◌, ◌==◌,
  if◌then◌else◌, ltb, length, set, ◌>>=◌,
}
use cn.Base.Int.{ℤ, pos, pos_part, add_int, ◌*ℤ◌}

pub record Numbers : Type 0 where
  pub size : ℤ
  pub nums : List ℤ

-- `scanf("%d",&add_1_arg.nums[i])` for `left` rounds from i on, with what is typed: a cell stays as it was if
-- nothing is typed any more; `none` is a write behind the array.
unfoldable pub read_nums : List ℤ → ℕ → ℕ → List ℤ → Option (List ℤ)
read_nums nums i zero typed = some nums
read_nums nums i (suc left) [] =
    let later = read_nums nums (i + 1) left [] in if ltb i (length nums) then later else none
read_nums nums i (suc left) (x ∷ typed) =
    let later = read_nums (set nums i x) (i + 1) left typed in
    if ltb i (length nums) then later else none

-- The clients of arraysum and add, up to the call, with what stood in the array.
unfoldable pub add_arg : List ℤ → ℤ → List ℤ → Option Numbers
unfolding read_nums
add_arg nums size typed = do
  nums' ← read_nums nums 0 (pos_part size) typed
  some (record { size = size; nums = nums' })

-- The loop of both servers, for the cells that are left: `none` is a read behind the array, or a sum that is no
-- `int`.
unfoldable pub add_nums : ℕ → List ℤ → ℤ → Option ℤ
add_nums zero nums result = some result
add_nums (suc left) [] result = none
add_nums (suc left) (x ∷ nums) result = add_int result x >>= λ sum. add_nums left nums sum

-- add_1_svc of end/rpc.
unfoldable pub addition : Numbers → Option ℤ
unfolding add_nums
addition arg = add_nums (pos_part arg.size) arg.nums (pos 0)

-- add_1_svc of rpc/arraysum, with the value of its static variable.
unfoldable pub arraysum : ℤ → Numbers → Option ℤ
unfolding add_nums
arraysum result arg = add_nums (pos_part arg.size) arg.nums result

-- The functions of the clients: what they print, of the answer of a server.
unfoldable pub addition_1 : List ℤ → ℤ → List ℤ → Option ℤ
unfolding add_arg addition
addition_1 nums size typed = do arg ← add_arg nums size typed; addition arg

unfoldable pub arraysum_1 : ℤ → List ℤ → ℤ → List ℤ → Option ℤ
unfolding add_arg arraysum
arraysum_1 result nums size typed = do arg ← add_arg nums size typed; arraysum result arg

-- Clients that run one after the other, each with the numbers that are typed after how many there are, and the same
-- array of their function; the answer of arraysum stays in its static variable.
unfoldable pub addition_session : List ℤ → List (List ℤ) → Option (List ℤ)
unfolding addition_1
addition_session nums [] = some []
addition_session nums (typed ∷ later) = do
  answer ← addition_1 nums (pos (length typed)) typed
  answers ← addition_session nums later
  some (answer ∷ answers)

unfoldable pub arraysum_session : ℤ → List ℤ → List (List ℤ) → Option (List ℤ)
unfolding arraysum_1
arraysum_session result nums [] = some []
arraysum_session result nums (typed ∷ later) = do
  answer ← arraysum_1 result nums (pos (length typed)) typed
  answers ← arraysum_session answer nums later
  some (answer ∷ answers)

-- square_1_svc, and what square_calc_1 prints.
unfoldable pub square_1 : ℤ → ℤ
square_1 num = num *ℤ num
