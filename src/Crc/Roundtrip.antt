-- ===== src/Crc/Roundtrip.antt =====
-- What the receiver makes of the transmitted frame, and of one with other check digits.
use Prim.Native.Nat.{bit_xor}
use cn.Base.{
  ℕ, zero, suc, ◌+◌, ◌<◌, ◌≤◌, ◌≡◌, refl, sym, ap, ap₂, ◌∙◌, ◌↔◌, true, false, ◌&&◌, leb, some,
  List, [], ◌∷◌, ◌++◌, append-nil, append_assoc, arith, length, take, drop, replicate, ltb,
  length-append, length-replicate, length-take, length-drop, Bool-cases, inl, inr,
}
use cn.Base.Xor.{bit_xor-zero, zero-bit_xor, bit_xor_assoc, bit_xor_self}
use cn.Crc.{
  Input, sent, xor_row, shift_in, reduce, divide, is_improper, cells_of_a, send, receive,
  receive_digits, all_zero,
}
use cn.Crc.Linear.{divide-xor_row, length-reduce, length-shift_in}

-- The numbers of digits that the loops over `scanf` read.
pub record IsRead (p : Input) : Type 0 where
  pub generator : length p.g ≡ p.n + 1
  pub frame : length p.a ≡ p.m + 1

-- The loop as far as the digits `bs`, and no further.
consume : List ℕ → List ℕ → List ℕ → List ℕ × List ℕ
consume g w [] = ([], w)
consume g w (b ∷ bs) =
    let (q, s) = reduce g w in let (qs, t) = consume g (shift_in s b) bs in (q ∷ qs, t)

length-consume : (g w bs : List ℕ) → 0 < length w → length (consume g w bs).1 ≡ length w
unfolding consume
length-consume g w [] h = refl
length-consume g w (b ∷ bs) h = omega (
  arith,
  length-reduce g w,
  length-shift_in (reduce g w).1 b,
  length-consume g (shift_in (reduce g w).1 b) bs,
)

divide-append :
    (g w xs bs : List ℕ)
    → divide g w (xs ++ bs) ≡ (
      (consume g w xs).0 ++ (divide g (consume g w xs).1 bs).0,
      (divide g (consume g w xs).1 bs).1,
    )
unfolding divide consume
divide-append g w [] bs = refl
divide-append g w (x ∷ xs) bs = rw (divide-append g (shift_in (reduce g w).1 x) xs bs)

length-divide : (g w bs : List ℕ) → 0 < length w → length (divide g w bs).1 ≡ length w
unfolding divide
length-divide g w [] h = length-reduce g w
length-divide g w (b ∷ bs) h = omega (
  arith,
  length-reduce g w,
  length-shift_in (reduce g w).1 b,
  length-divide g (shift_in (reduce g w).1 b) bs,
)

pub xor_row-zeros : (w : List ℕ) (n : ℕ) → xor_row w (replicate n 0) ≡ w
unfolding xor_row
xor_row-zeros [] n = refl
xor_row-zeros (x ∷ w) zero = refl
xor_row-zeros (x ∷ w) (suc n) = ap₂ ◌∷◌ (bit_xor-zero x) (xor_row-zeros w n)

zeros-xor_row : (n : ℕ) (c : List ℕ) → length c ≡ n → xor_row (replicate n 0) c ≡ c
unfolding xor_row
zeros-xor_row zero [] h = refl
zeros-xor_row zero (y ∷ c) h = absurd (omega arith)
zeros-xor_row (suc n) [] h = absurd (omega arith)
zeros-xor_row (suc n) (y ∷ c) h = ap₂ ◌∷◌ (zero-bit_xor y) (zeros-xor_row n c (omega arith))

pub take-append :
    {A : Type 0} (k : ℕ) (xs ys : List A) → k ≤ length xs → take k (xs ++ ys) ≡ take k xs
take-append zero xs ys h = refl
take-append (suc k) [] ys h = absurd (omega arith)
take-append (suc k) (x ∷ xs) ys h = ap (◌∷◌ x) (take-append k xs ys (omega arith))

drop-append :
    {A : Type 0} (k : ℕ) (xs ys : List A) → k ≤ length xs → drop k (xs ++ ys) ≡ drop k xs ++ ys
drop-append zero xs ys h = refl
drop-append (suc k) [] ys h = absurd (omega arith)
drop-append (suc k) (x ∷ xs) ys h = drop-append k xs ys (omega arith)

-- With other check digits in the place of the zeros, the same quotient comes out, and the digits are
-- added to the remainder.
divide_check :
    (n : ℕ) (g w xs check : List ℕ)
    → length w ≡ suc n
    → length check ≡ n
    → divide g w (xs ++ check) ≡ (
      (divide g w (xs ++ replicate n 0)).0,
      xor_row (divide g w (xs ++ replicate n 0)).1 (0 ∷ check),
    )
divide_check n g w xs check hw hc =
    let v = (consume g w xs).1 in
    let linear =
      divide-xor_row 0 n g v [] (replicate n 0) check (omega (arith, length-replicate {A = ℕ} n 0))
        (omega (arith, length-consume g w xs)) (omega arith) in
    let same : xor_row v (0 ∷ (replicate n 0 ++ [])) ≡ v =
      rw (append-nil (replicate {A = ℕ} n 0)) (xor_row-zeros v (suc n)) in
    let added = rw (same, zeros-xor_row n check hc) at linear in
    rw (divide-append g w xs check, divide-append g w xs (replicate n 0), added)

-- Two rows whose sum is zero are the same.
xor_row_cancel : (r c : List ℕ) → length r ≡ length c → all_zero (xor_row r c) ≡ true → r ≡ c
unfolding xor_row all_zero
xor_row_cancel [] [] h e = refl
xor_row_cancel [] (y ∷ c) h e = absurd (omega arith)
xor_row_cancel (x ∷ r) [] h e = absurd (omega arith)
xor_row_cancel (x ∷ r) (y ∷ c) h e =
    let zero_sum : bit_xor x y ≡ 0 = ground arith in
    let back : x ≡ y =
      sym (bit_xor-zero x)
      ∙ ap (bit_xor x) (sym (bit_xor_self y))
      ∙ sym (bit_xor_assoc x y y)
      ∙ ap (λ t. bit_xor t y) zero_sum
      ∙ zero-bit_xor y in
    ap₂ ◌∷◌ back (xor_row_cancel r c (omega arith) (ground arith))

xor_row_self : (r : List ℕ) → xor_row r r ≡ replicate (length r) 0
unfolding xor_row
xor_row_self [] = refl
xor_row_self (x ∷ r) = ap₂ ◌∷◌ (bit_xor_self x) (xor_row_self r)

all_zero-replicate : (n : ℕ) → all_zero (replicate n 0) ≡ true
unfolding all_zero
all_zero-replicate zero = refl
all_zero-replicate (suc n) = all_zero-replicate n

drop-xor_row :
    (w check : List ℕ) → 0 < length w → drop 1 (xor_row w (0 ∷ check)) ≡ xor_row (drop 1 w) check
unfolding xor_row
drop-xor_row [] check h = absurd (omega arith)
drop-xor_row (x ∷ w) check h = refl

-- The frame with n zeros behind it, and the sender's quotient and last window.
abbrev pub padded : Input → List ℕ
padded p = p.a ++ replicate p.n 0

abbrev pub sender : Input → List ℕ × List ℕ
sender p = divide p.g (take (p.n + 1) (padded p)) (drop (p.n + 1) (padded p))

pub sent_inv :
    (p : Input) {q r f : List ℕ}
    → send p ≡ sent q r f
    → (is_improper p ≡ false)
      × (q ≡ (sender p).0)
      × (r ≡ drop 1 (sender p).1)
      × (f ≡ p.a ++ drop 1 (sender p).1)
      × (p.m + p.n < cells_of_a)
unfolding send
sent_inv p e = elim (Bool-cases (ltb p.n cells_of_a && ltb p.m cells_of_a)) [
  | inl fit ↦ elim (Bool-cases (is_improper p)) [
    | inl bad ↦ let no_frame = rw (fit, bad) at e in cc
    | inr fine ↦ elim (Bool-cases (ltb (p.m + p.n) cells_of_a)) [
      | inl room ↦ let frame = rw (fit, fine, room) at e in (fine, cc, cc, cc, ground (arith, room))
      | inr over ↦ let no_frame = rw (fit, fine, over) at e in cc
    ]
  ]
  | inr long ↦ let no_frame = rw long at e in cc
]

module _ (p : Input) (h : IsRead p) (proper : is_improper p ≡ false) where
  enough : p.n + 1 ≤ length p.a
  unfolding is_improper
  enough = ground (arith, h.frame)

  start-length : length (take (p.n + 1) p.a) ≡ suc p.n
  start-length = omega (arith, length-take {A = ℕ} (p.n + 1) p.a enough)

  pub remainder-length : length (drop 1 (sender p).1) ≡ p.n
  remainder-length =
      let kept = take-append (p.n + 1) p.a (replicate p.n 0) enough in
      omega (
        arith,
        length-divide p.g (take (p.n + 1) (padded p)) (drop (p.n + 1) (padded p))
            (rw kept (omega (arith, start-length))),
        ap length kept,
        start-length,
        length-drop {A = ℕ} 1 (sender p).1,
      )

  -- The receiver's division of the payload with any check digits.
  receive-payload :
      (cells check : List ℕ)
      → length check ≡ p.n
      → receive_digits p.n p.g cells (p.a ++ check) ≡ (
        (sender p).0,
        xor_row (drop 1 (sender p).1) check,
        all_zero (xor_row (drop 1 (sender p).1) check),
      )
  unfolding receive_digits
  receive-payload cells check hc =
      let long : ltb p.n (length (p.a ++ check)) ≡ true =
        ground (arith, enough, length-append p.a check) in
      let rest = drop (length (p.a ++ check)) cells in
      let w = take (p.n + 1) p.a in
      let xs = drop (p.n + 1) p.a in
      let size : 0 < length (divide p.g w (xs ++ replicate p.n 0)).1 =
        omega (arith, start-length, length-divide p.g w (xs ++ replicate p.n 0)) in
      rw (
        long,
        append_assoc p.a check rest,
        take-append (p.n + 1) p.a (check ++ rest) enough,
        drop-append (p.n + 1) p.a check enough,
        take-append (p.n + 1) p.a (replicate p.n 0) enough,
        drop-append (p.n + 1) p.a (replicate p.n 0) enough,
        divide_check p.n p.g w xs check start-length hc,
        drop-xor_row (divide p.g w (xs ++ replicate p.n 0)).1 check size,
      )

module _ (p : Input) (h : IsRead p) {q r f : List ℕ} (sending : send p ≡ sent q r f) where
  -- A frame with n check digits behind the sender's payload fits into `a`.
  receive_fits :
      (cells check : List ℕ)
      → length check ≡ p.n
      → receive p.n p.g cells (p.a ++ check) ≡ some (receive_digits p.n p.g cells (p.a ++ check))
  unfolding receive
  receive_fits cells check hc =
      let (proper, same_q, same_r, same_f, room) = sent_inv p sending in
      let fits : leb (length (p.a ++ check)) cells_of_a ≡ true =
        ground (arith, length-append p.a check, hc, h.frame, room) in
      rw fits refl

  -- If the sender transmits a frame, and does not write behind its arrays, then this frame is the payload followed by
  -- n check digits; the receiver has room for it, finds the sender's quotient and a remainder of n zeros in it, and
  -- reports no error.
  pub receive-send :
      (cells : List ℕ)
      → (f ≡ p.a ++ r)
        × (length r ≡ p.n)
        × (receive p.n p.g cells f ≡ some (q, replicate p.n 0, true))
  receive-send cells =
      let (proper, same_q, same_r, same_f, room) = sent_inv p sending in
      let size = remainder-length p h proper in
      let check = drop 1 (sender p).1 in
      let received = receive-payload p h proper cells check size in
      let zeros : xor_row check check ≡ replicate p.n 0 =
        xor_row_self check ∙ ap (λ t. replicate t 0) size in
      (
        rw (same_f, same_r),
        rw same_r size,
        rw (same_f, receive_fits cells check size, same_q, received, zeros, all_zero-replicate p.n),
      )

  -- Of the frames with the sender's payload and n check digits the receiver reports no error exactly
  -- for the transmitted one: every change to the check digits is detected.
  pub receive_accepts :
      (cells check : List ℕ)
      → length check ≡ p.n
      → (receive p.n p.g cells (p.a ++ check) ≡ some (receive_digits p.n p.g cells (p.a ++ check)))
        × (((receive_digits p.n p.g cells (p.a ++ check)).2 ≡ true) ↔ (check ≡ r))
  receive_accepts cells check hc =
      let (proper, same_q, same_r, same_f, room) = sent_inv p sending in
      let size = remainder-length p h proper in
      let received = receive-payload p h proper cells check hc in
      (
        receive_fits cells check hc,
        rw (received, same_r)
            (
              λ e. sym (xor_row_cancel (drop 1 (sender p).1) check (omega (arith, size, hc)) e),
              λ e. rw (e, xor_row_self (drop 1 (sender p).1)) (all_zero-replicate _),
            ),
      )
