-- ===== src/Hamming/Error.antt =====
-- The frame that is sent, and the position that the checks compute after a bit is changed.
use mathlib.Core.List.{reverse-reverse}
use cn.Base.{
  ℕ, zero, suc, ◌+◌, ◌-◌, ◌*◌, ◌/◌, ◌%◌, ◌^◌, ◌<◌, ◌≤◌, ◌≡◌, refl, sym, ap, subst, ◌∙◌, Bool, true,
  false, ◌&&◌, List, [], ◌∷◌, ◌++◌, ◌==◌, Option, some, length, get_or, set, take, drop, arith,
  if◌then◌else◌, Bool-cases, inl, inr, ltb, length-set, get_or-set, length-drop, Returns,
}
use cn.Base.Int.{ℤ, pos, bit, eqb_ℤ}
use cn.Hamming.{
  frame_cells, change_bit, main, Correction, encode, clear_bit, error_position, scan_powers,
  scan_marks, new_frame,
}
use cn.Hamming.Digits.{is_one, has_digit, has_digit-zero, pow-positive}
use cn.Hamming.Checks.{ones, ones-set, parity, syndromes, powers, Clear, Even}
use cn.Hamming.Scan.{Keeps, Scanned, scan_powers-Scanned, scan_marks-scan_powers}
use cn.Hamming.Frame.{
  data_cells, data_cells-Keeps, next_power, Passed, Unmarked, Framed, new_frame-Framed,
  Marked-Clear,
}

-- What is known of the frame that is sent.
record Encoded (input : List ℤ) (m : Option (List ℤ × List ℤ × ℕ)) : Type 0 where
  pub df : List ℤ
  pub rb : List ℤ
  pub nrb : ℕ
  pub result : m ≡ some (df, rb, nrb)
  pub count : nrb ≡ powers (length df - 1) 0 1
  pub even : Even nrb df
  pub stripped : data_cells 0 1 (drop 1 df) ≡ input
  pub filled : 1 ≤ length df
  pub size : length df ≤ 16

get_or-drop : (a : List ℤ) (j : ℕ) → get_or (drop 1 a) j (pos 0) ≡ get_or a (suc j) (pos 0)
get_or-drop [] j = refl
get_or-drop (x ∷ a) j = refl

drop-Keeps :
    (a b : List ℤ)
    → Keeps a b
    → (j : ℕ) → ((q : ℕ) → (2 ^ q == 1 + j) ≡ false)
    → get_or (drop 1 b) j (pos 0) ≡ get_or (drop 1 a) j (pos 0)
unfolding Keeps
drop-Keeps a b h j apart =
    let e : 1 + j ≡ suc j = omega arith in
    get_or-drop b j
    ∙ h (suc j) (λ q. subst (λ n. (2 ^ q == n) ≡ false) e (apart q))
    ∙ sym (get_or-drop a j)

encode-Encoded :
    (first : ℤ) (input : List ℤ)
    → length input ≤ 11
    → Unmarked input
    → Encoded input (encode first input)
unfolding encode Clear Passed Even
encode-Encoded first input h plain =
    let n = length input in
    let f : Framed 0 1 input (new_frame (2 * n + 2) (2 ^ 0) 1 input) =
      new_frame-Framed (2 * n + 2) 0 1 input (omega arith) (omega arith) (omega arith)
        (omega (arith, h)) plain in
    let whole = first ∷ f.df in
    let s : Scanned (powers (length f.df) 0 1) 0 whole (scan_powers (length f.df) (2 ^ 0) 1 whole) =
      scan_powers-Scanned (length f.df) 0 1 whole (omega arith) (omega arith)
        (omega (arith, f.size)) in
    let same : scan_marks (length f.df) 1 whole ≡ some (s.last, s.rb) =
      scan_marks-scan_powers f.df 0 1 whole refl (omega arith) (omega (arith, f.size)) f.marks
      ∙ s.result in
    let fields : length f.df ≡ length s.last - 1 = omega (arith, s.size) in
    let checks : 0 + powers (length f.df) 0 1 ≡ f.nrb = omega (arith, f.count) in
    let clear : Clear 0 whole = λ q hq.
      let e : 2 ^ q ≡ suc (2 ^ q - 1) = omega (arith, pow-positive q) in
      ap (λ k. is_one (get_or whole k (pos 0))) e
      ∙ Marked-Clear f.df 0 1 q f.marks (omega arith) hq in
    record {
      df = s.last;
      rb = s.rb;
      nrb = f.nrb;
      result = rw (reverse-reverse input, f.result, same) refl;
      count = f.count ∙ ap (λ k. powers k 0 1) fields;
      even = subst (λ k. Even k s.last) checks (s.even clear (λ q hq. absurd (omega (arith, hq))));
      stripped =
          data_cells-Keeps f.df (drop 1 s.last) 0 1 (omega (arith, length-drop 1 s.last, s.size))
            (omega arith) (λ q hq. absurd (omega (arith, hq))) (drop-Keeps whole s.last s.keeps)
          ∙ f.stripped;
      filled = omega (arith, s.size);
      size = omega (arith, s.size, f.size);
    }

set-outside : (df : List ℤ) (i : ℕ) (v : ℤ) → length df ≤ i → set df i v ≡ df
set-outside [] i v h = refl
set-outside (x ∷ df) zero v h = absurd (omega (arith, h))
set-outside (x ∷ df) (suc i) v h = ap (◌∷◌ x) (set-outside df i v (omega (arith, h)))

get_or-outside : (df : List ℤ) (i : ℕ) → length df ≤ i → get_or df i (pos 0) ≡ pos 0
get_or-outside [] i h = refl
get_or-outside (x ∷ df) zero h = absurd (omega (arith, h))
get_or-outside (x ∷ df) (suc i) h = get_or-outside df i (omega (arith, h))

-- The changed bit is missing in the checks that have it, if it was a one.
ones-clear_bit :
    (q eb : ℕ) (df : List ℤ)
    → ones q (clear_bit eb df) + bit (has_digit q eb && is_one (get_or df eb (pos 0))) ≡ ones q df
unfolding clear_bit is_one
ones-clear_bit q zero [] = ground (arith, has_digit-zero q)
ones-clear_bit q zero (x ∷ df) = ground (arith, has_digit-zero q)
ones-clear_bit q (suc i) df =
    let eb = suc i in
    elim (Bool-cases (ltb eb (length df))) [
      | inl l ↦
          let inside : eb < length df = ground (arith, l) in
          let once = set df eb (pos 1) in
          let first = ones-set q eb df (pos 1) (omega arith) inside in
          let second =
            ones-set q eb once (pos 0) (omega arith)
              (omega (arith, inside, length-set df eb (pos 1))) in
          let written : get_or once eb (pos 0) ≡ pos 1 =
            get_or-set df eb eb (pos 1) (pos 0) inside ∙ ground arith in
          let after =
            subst
              (λ v.
                ones q (set once eb (pos 0)) + bit (has_digit q eb && is_one v)
                ≡ ones q once + bit (has_digit q eb && is_one (pos 0)))
              written second in
          ground (arith, first, after)
      | inr l ↦
          let outside : length df ≤ eb = ground (arith, l) in
          rw
            (
              set-outside df eb (pos 1) outside,
              set-outside df eb (pos 0) outside,
              get_or-outside df eb outside,
            )
            (ground arith)
    ]

length-clear_bit : (eb : ℕ) (df : List ℤ) → length (clear_bit eb df) ≡ length df
unfolding clear_bit
length-clear_bit eb df = length-set (set df eb (pos 1)) eb (pos 0) ∙ length-set df eb (pos 1)

-- Doubling the weight of the first bit doubles the position.
error_position_double : (j : ℕ) (rb : List ℤ) → error_position (j * 2) rb ≡ 2 * error_position j rb
unfolding error_position
error_position_double j [] = refl
error_position_double j (r ∷ rb) = ground (arith, error_position_double (j * 2) rb)

-- The checks `p`, `p + 1`, ... spell the bits of `e` if `o`, and nothing otherwise.
unfoldable Spells : ℕ → ℕ → ℕ → Bool → List ℤ → Type 0
Spells c p e o df = (q : ℕ) → q < c → ones (p + q) df % 2 ≡ bit (has_digit q e && o)

lowest :
    (n e : ℕ) (o : Bool)
    → n % 2 ≡ bit (has_digit 0 e && o)
    → (if eqb_ℤ (parity n) (pos 1) then 1 else 0) ≡ (if o then e % 2 else 0)
unfolding has_digit
lowest n e true h = ground (arith, h)
lowest n e false h = ground (arith, h)

syndromes-position :
    (c p e : ℕ) (o : Bool) (df : List ℤ)
    → e < 2 ^ c
    → Spells c p e o df
    → error_position 1 (syndromes c p df) ≡ (if o then e else 0)
unfolding syndromes error_position Spells has_digit
syndromes-position zero p e o df he h = ground (arith, he)
syndromes-position (suc c) p e o df he h =
    let first : ones p df % 2 ≡ bit (has_digit 0 e && o) =
      let here : p + 0 ≡ p = omega arith in
      subst (λ n. ones n df % 2 ≡ bit (has_digit 0 e && o)) here (h 0 (omega arith)) in
    let later = syndromes-position c (suc p) (e / 2) o df (omega (arith, he)) (λ q hq.
      let next : p + suc q ≡ suc p + q = omega arith in
      subst (λ n. ones n df % 2 ≡ bit (has_digit q (e / 2) && o)) next
        (h (suc q) (omega (arith, hq)))) in
    let double = error_position_double 1 (syndromes c (suc p) df) in
    ground (arith, lowest (ones p df) e o first, later, double)

length-syndromes : (c p : ℕ) (df : List ℤ) → length (syndromes c p df) ≡ c
unfolding syndromes
length-syndromes zero p df = refl
length-syndromes (suc c) p df = ap suc (length-syndromes c (suc p) df)

-- A frame has as many checks as its positions have bits.
powers-bound : (n p i : ℕ) → i ≤ 2 ^ p → i + n ≤ 2 ^ (p + powers n p i)
unfolding powers
powers-bound zero p i h = let e : p ≡ p + 0 = omega arith in omega (arith, h, ap (λ k. 2 ^ k) e)
powers-bound (suc n) p i h =
    let next = bit (i == 2 ^ p) + p in
    let rest = powers n next (i + 1) in
    let later = powers-bound n next (i + 1) (next_power p i h) in
    let e : next + rest ≡ p + (bit (i == 2 ^ p) + rest) = omega arith in
    omega (arith, later, ap (λ k. 2 ^ k) e)

take-syndromes :
    (c p : ℕ) (df later : List ℤ) → take c (syndromes c p df ++ later) ≡ syndromes c p df
unfolding syndromes
take-syndromes zero p df later = refl
take-syndromes (suc c) p df later =
    ap (◌∷◌ (parity (ones p df))) (take-syndromes c (suc p) df later)

-- The checks on the changed frame spell the position of the changed bit, if it was a one.
clear_bit-Spells :
    (c eb : ℕ) (df : List ℤ)
    → Even c df
    → Spells c 0 eb (is_one (get_or df eb (pos 0))) (clear_bit eb df)
unfolding Even Spells
clear_bit-Spells c eb df even q hq =
    let same : 0 + q ≡ q = omega arith in
    rw same (ground (arith, ones-clear_bit q eb df, even q hq))

find_position :
    (c eb : ℕ) (df : List ℤ)
    → Even c df
    → length df ≤ 2 ^ c
    → error_position 1 (syndromes c 0 (clear_bit eb df))
      ≡ (if is_one (get_or df eb (pos 0)) then eb else 0)
unfolding Spells is_one
find_position c eb df even room = elim (Bool-cases (ltb eb (length df))) [
  | inl l ↦
      syndromes-position c 0 eb (is_one (get_or df eb (pos 0))) (clear_bit eb df)
        (ground (arith, l, room)) (clear_bit-Spells c eb df even)
  | inr l ↦
      let none_there : is_one (get_or df eb (pos 0)) ≡ false =
        ap is_one (get_or-outside df eb (ground (arith, l))) ∙ refl in
      rw none_there (
        syndromes-position c 0 0 false (clear_bit eb df) (pow-positive c)
          (λ q hq. ground (arith, clear_bit-Spells c eb df even q hq, none_there)))
]

-- For up to eleven data, none of which is -1, the program sends a frame in which every redundancy bit makes
-- the number of ones at the positions of its check even, and which gives the data back when the redundancy
-- bits are left out.
pub encode-Even :
    (first : ℤ) (input : List ℤ)
    → length input ≤ 11
    → Unmarked input
    → Returns (λ r. Even r.2 r.0 × (data_cells 0 1 (drop 1 r.0) ≡ input)) (encode first input)
encode-Even first input h plain =
    let s = encode-Encoded first input h plain in
    ((s.df, s.rb, s.nrb), s.result, (s.even, s.stripped))

-- For up to eleven data, none of which is -1, and any bit below 30, the number of cells of
-- `df`, that the user asks to change, the program comes to
-- an end, and the error position that it prints is that bit if the frame that was sent has a one there, and
-- 0 otherwise: the condition that should tell ones from zeros assigns, so that a zero is not changed.
pub main-ep :
    (first : ℤ) (input : List ℤ) (eb : ℕ)
    → length input ≤ 11
    → Unmarked input
    → eb < frame_cells
    → Returns
        (λ o. o.ep ≡ (if eqb_ℤ (get_or o.sent eb (pos 0)) (pos 1) then eb else 0))
        (main first input eb)
unfolding main change_bit is_one
main-ep first input eb h plain inside =
    let s = encode-Encoded first input h plain in
    let changed = clear_bit eb s.df in
    let n = length s.df - 1 in
    let within : ltb eb frame_cells ≡ true = ground (arith, inside) in
    let size : length changed ≡ length s.df = length-clear_bit eb s.df in
    let scan : Scanned (powers n 0 1) 0 changed (scan_powers n (2 ^ 0) 1 changed) =
      scan_powers-Scanned n 0 1 changed (omega arith) (omega (arith, size, s.filled))
        (omega (arith, size, s.size)) in
    let bits : scan.rb ≡ syndromes s.nrb 0 changed =
      scan.bits ∙ ap (λ c. syndromes c 0 changed) (sym s.count) in
    let redundancy = take s.nrb (scan.rb ++ drop (length scan.rb) s.rb) in
    let kept : redundancy ≡ syndromes s.nrb 0 changed =
      ap (λ t. take s.nrb (t ++ drop (length t) s.rb)) bits
      ∙ take-syndromes s.nrb 0 changed (drop (length (syndromes s.nrb 0 changed)) s.rb) in
    let room : length s.df ≤ 2 ^ s.nrb =
      let e : 0 + powers n 0 1 ≡ s.nrb = omega (arith, s.count) in
      subst (λ c. length s.df ≤ 2 ^ c) e
        (omega (arith, powers-bound n 0 1 (omega arith), s.filled)) in
    let o : Correction = record {
      sent = s.df;
      changed = changed;
      redundancy = redundancy;
      ep = error_position 1 redundancy;
    } in
    (
      o,
      rw (s.result, within, scan.result) refl,
      ap (error_position 1) kept ∙ find_position s.nrb eb s.df s.even room,
    )
