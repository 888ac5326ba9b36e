-- ===== src/Crc/Keyed.antt =====
-- errcorrection/crc.c: the same check by another program, which compares the characters of the key with
-- those of the message. The characters '0' and '1' are the digits 0 and 1; `strcpy(temp,rem)` copies the
-- `keylen` characters that the loop has written: `rem`, which nothing ends, is taken to have a zero behind them.
pub mod Agreement
mod Tests
use cn.Base.{
  ℕ, zero, suc, ◌+◌, ◌-◌, Bool, true, false, ◌&&◌, ltb, leb, Option, none, some, List, [], ◌∷◌,
  ◌++◌, ◌==◌, length, get_or, take, drop, replicate, if◌then◌else◌,
}

-- `key`: zeros if the first character of `temp` is '0', or `key1`.
unfoldable pub chosen_key : List ℕ → List ℕ → List ℕ
chosen_key key1 temp = if get_or temp 0 0 == 0 then replicate (length key1) 0 else key1

-- The loop over j: `rem[j-1]` is '0' where `temp[j]` and `key[j]` are equal.
unfoldable pub compare_row : List ℕ → List ℕ → List ℕ
compare_row [] key = []
compare_row (x ∷ temp) [] = []
compare_row (x ∷ temp) (y ∷ key) = (if x == y then 0 else 1) ∷ compare_row temp key

-- One round: the next `temp`, for the next character of `input`.
unfoldable pub next_temp : List ℕ → List ℕ → ℕ → List ℕ
unfolding chosen_key
next_temp key1 temp c = compare_row (drop 1 temp) (drop 1 (chosen_key key1 temp)) ++ c ∷ []

-- The loop over i, with the characters `input[i+keylen]` that it reads: `quot`, and the last `temp`.
unfoldable pub keyed_divide : List ℕ → List ℕ → List ℕ → List ℕ × List ℕ
keyed_divide key1 temp [] = ([], temp)
keyed_divide key1 temp (c ∷ cs) =
    let (quot, last) = keyed_divide key1 (next_temp key1 temp c) cs in
    (get_or temp 0 0 ∷ quot, last)

-- The quotient, the remainder and the final data. `after` is the cell of `input` behind the zeros that the
-- program appends.
unfoldable pub keyed_run : List ℕ → List ℕ → ℕ → List ℕ × List ℕ × List ℕ
keyed_run input key after =
    let keylen = length key in
    let cells = input ++ (replicate (keylen - 1) 0 ++ after ∷ []) in
    let (quot, temp) = keyed_divide key (take keylen cells) (drop keylen cells) in
    let rem = take (keylen - 1) temp in (quot, rem, input ++ rem)

-- `main`. There is no result where a text, with its end, is longer than `key` (30 characters, as many as `temp`,
-- `rem` and `key1` have) or the last cell that is read, `input[msglen-1+keylen]`, is behind `input` (100), or where the
-- empty key makes the program write `rem[-1]`. The cell behind the last one of `rem` that is written is taken to be 0.
unfoldable pub keyed_main : List ℕ → List ℕ → ℕ → Option (List ℕ × List ℕ × List ℕ)
unfolding keyed_run
keyed_main input key after =
    let fits = ltb (length input) 100 && leb (length input + length key) 100 in
    let key_fits = ltb 0 (length key) && ltb (length key) 30 in
    let run = keyed_run input key after in if fits && key_fits then some run else none
