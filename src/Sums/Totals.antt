-- ===== src/Sums/Totals.antt =====
-- What the servers answer.
use cn.Base.{
  ◌+◌, ◌≤◌, ◌≡◌, refl, sym, ap, ap₂, ◌∙◌, true, some, List, [], ◌∷◌, ◌++◌, ltb, length,
  length-append, append_assoc, set, map, arith,
}
use cn.Base.Int.{ℤ, pos, ◌+ℤ◌, +ℤ_assoc, +ℤ_zero, +ℤ_from_zero, add_int-fits, SumsFit}
use cn.Sums.{
  read_nums, add_arg, add_nums, addition, arraysum, addition_1, arraysum_1, addition_session,
  arraysum_session,
}

-- The sums of the answers up to each one, from a start on.
abbrev pub running : ℤ → List ℤ → List ℤ
running total [] = []
running total (answer ∷ answers) = (total +ℤ answer) ∷ running (total +ℤ answer) answers

abbrev pub sum : List ℤ → ℤ
sum [] = pos 0
sum (x ∷ xs) = x +ℤ sum xs

set-middle :
    (before after : List ℤ) (y x : ℤ)
    → set (before ++ y ∷ after) (length before) x ≡ before ++ x ∷ after
set-middle [] after y x = refl
set-middle (z ∷ before) after y x = ap (◌∷◌ z) (set-middle before after y x)

-- The numbers that are typed stand at the beginning of what was free in the array.
read_nums-typed :
    (before after xs : List ℤ)
    → length xs ≤ length after
    → (rest : List ℤ) × (read_nums (before ++ after) (length before) (length xs) xs
        ≡ some (before ++ (xs ++ rest)))
unfolding read_nums
read_nums-typed before after [] h = (after, refl)
read_nums-typed before [] (x ∷ xs) h = absurd (omega arith)
read_nums-typed before (y ∷ after) (x ∷ xs) h =
    let (rest, read) = read_nums-typed (before ++ x ∷ []) after xs (omega arith) in
    let inside : ltb (length before) (length (before ++ y ∷ after)) ≡ true =
      ground (arith, length-append before (y ∷ after)) in
    let index : length (before ++ x ∷ []) ≡ length before + 1 =
      length-append before (x ∷ []) ∙ refl in
    (
      rest,
      rw (inside, set-middle before after y x)
          (ap₂ (λ nums i. read_nums nums i (length xs) xs)
              (sym (append_assoc before (x ∷ []) after)) (sym index)
            ∙ read
            ∙ ap some (append_assoc before (x ∷ []) (xs ++ rest))),
    )

add_nums-sum :
    (xs rest : List ℤ) (result : ℤ)
    → SumsFit result xs
    → add_nums (length xs) (xs ++ rest) result ≡ some (result +ℤ sum xs)
unfolding add_nums
add_nums-sum [] rest result h = ap some (sym (+ℤ_zero result))
add_nums-sum (x ∷ xs) rest result (fits, h) =
    rw (add_int-fits result x fits)
      (add_nums-sum xs rest (result +ℤ x) h ∙ ap some (+ℤ_assoc result x (sum xs)))

arraysum_1-sum :
    (result : ℤ) (nums xs : List ℤ)
    → length xs ≤ length nums
    → SumsFit result xs
    → arraysum_1 result nums (pos (length xs)) xs ≡ some (result +ℤ sum xs)
unfolding arraysum_1 add_arg arraysum
arraysum_1-sum result nums xs room fits =
    let (rest, read) = read_nums-typed [] nums xs room in rw read (add_nums-sum xs rest result fits)

addition_1-sum :
    (nums xs : List ℤ)
    → length xs ≤ length nums
    → SumsFit (pos 0) xs
    → addition_1 nums (pos (length xs)) xs ≡ some (sum xs)
unfolding addition_1 add_arg addition
addition_1-sum nums xs room fits =
    let (rest, read) = read_nums-typed [] nums xs room in
    rw read (add_nums-sum xs rest (pos 0) fits ∙ ap some (+ℤ_from_zero (sum xs)))

-- Every client has no more numbers than the array of arraysum, and no `int` overflows in either server.
abbrev pub Fit : ℤ → List (List ℤ) → Type 0
Fit total [] = Unit
Fit total (xs ∷ later) =
    (length xs ≤ 100) × SumsFit (pos 0) xs × SumsFit total xs × Fit (total +ℤ sum xs) later

addition_session-sum :
    (nums : List ℤ) (total : ℤ) (calls : List (List ℤ))
    → length nums ≡ 128
    → Fit total calls
    → addition_session nums calls ≡ some (map sum calls)
unfolding addition_session
addition_session-sum nums total [] size fit = refl
addition_session-sum nums total (xs ∷ calls) size (few, alone, upon, fit) =
    rw
      (
        addition_1-sum nums xs (omega arith) alone,
        addition_session-sum nums (total +ℤ sum xs) calls size fit,
      )
      refl

arraysum_session-sum :
    (nums : List ℤ) (total : ℤ) (calls : List (List ℤ))
    → length nums ≡ 100
    → Fit total calls
    → arraysum_session total nums calls ≡ some (running total (map sum calls))
unfolding arraysum_session
arraysum_session-sum nums total [] size fit = refl
arraysum_session-sum nums total (xs ∷ calls) size (few, alone, upon, fit) =
    rw
      (
        arraysum_1-sum total nums xs (omega arith) upon,
        arraysum_session-sum nums (total +ℤ sum xs) calls size fit,
      )
      refl

-- For clients with at most 100 numbers each, and sums that an `int` holds, whatever an array of 128 cells and one of
-- 100 hold when a client starts, which is the same for all of them: the server of end/rpc answers each client with
-- the sum of its numbers, and arraysum, which never resets its static variable, answers with that sum and all the
-- earlier ones added to it.
pub arraysum_session-running :
    (nums nums' : List ℤ) (total : ℤ) (calls : List (List ℤ))
    → length nums ≡ 128
    → length nums' ≡ 100
    → Fit total calls
    → (addition_session nums calls ≡ some (map sum calls))
      × (arraysum_session total nums' calls ≡ some (running total (map sum calls)))
arraysum_session-running nums nums' total calls size size' fit = (
  addition_session-sum nums total calls size fit,
  arraysum_session-sum nums' total calls size' fit,
)
