-- ===== src/Sniffer/Dump.antt =====
-- PrintData, line by line.
use cn.Base.{
  ℕ, zero, suc, ◌+◌, ◌-◌, ◌*◌, ◌/◌, ◌%◌, ◌≤◌, ◌<◌, ◌≡◌, refl, sym, ap, ap₂, ◌∙◌, Bool, true, false,
  not, ◌&&◌, List, [], ◌∷◌, ◌==◌, if◌then◌else◌, arith, Bool-cases, ltb, inl, inr,
}
use cn.Sniffer.{blanks, hex, text_column, before_byte, after_byte, print_from, print_data}

and_false : (b : Bool) → (b && false) ≡ false
and_false true = refl
and_false false = refl

module _ (bytes : ℕ → ℕ) where
  unfoldable pub hexes : ℕ → ℕ → List ℕ → List ℕ
  hexes j zero out = out
  hexes j (suc n) out = hex (bytes j) (hexes (j + 1) n out)

  -- A line of `n` bytes from `i` on: the bytes, blanks up to the width of 16 bytes, and the text_column.
  unfoldable pub line : ℕ → ℕ → List ℕ → List ℕ
  unfolding hexes
  line i n out =
      blanks 3 (hexes i n (blanks (3 * (16 - n)) (blanks 9 (text_column bytes i n (10 ∷ out)))))

  -- So many lines of 16 bytes, and one of the `r` bytes that are left, if there are any.
  unfoldable pub dump : ℕ → ℕ → ℕ → List ℕ
  unfolding line
  dump zero i r = if r == 0 then [] else line i r []
  dump (suc lines) i r = line i 16 (dump lines (i + 16) r)

  -- Within a line nothing is printed before a byte, and nothing after it but at the end of the data.
  before_byte-within :
      (q k : ℕ) (out : List ℕ) → 1 ≤ k → k < 16 → before_byte bytes (16 * q + k) out ≡ out
  unfolding before_byte
  before_byte-within q k out h hk =
      let off : ((16 * q + k) % 16 == 0) ≡ false = ground arith in
      let cond : (not (16 * q + k == 0) && false) ≡ false = and_false (not (16 * q + k == 0)) in
      rw (off, cond) refl

  after_byte-within : (s i : ℕ) (out : List ℕ) → i + 1 < s → after_byte bytes s i out ≡ out
  unfolding after_byte
  after_byte-within s i out h = let more : (i + 1 == s) ≡ false = ground arith in rw more refl

  -- The end of a line of `n` bytes.
  unfoldable pub ending : ℕ → ℕ → List ℕ → List ℕ
  ending q n out = blanks (3 * (16 - n)) (blanks 9 (text_column bytes (16 * q) n (10 ∷ out)))

  after_byte-last :
      (q k : ℕ) (out : List ℕ)
      → k < 16
      → after_byte bytes (16 * q + k + 1) (16 * q + k) out ≡ ending q (k + 1) out
  unfolding after_byte ending
  after_byte-last q k out hk =
      let here : (16 * q + k + 1 == 16 * q + k + 1) ≡ true = ground arith in
      let digit : (16 * q + k) % 16 ≡ k = omega arith in
      let first : 16 * q + k - k ≡ 16 * q = omega arith in
      let rest : 15 - k ≡ 16 - (k + 1) = omega arith in rw (here, digit, first, rest) refl

  -- The rest of the last line.
  last_line :
      (n q k s : ℕ)
      → 1 ≤ k
      → k + suc n ≤ 16
      → s ≡ 16 * q + k + suc n
      → print_from bytes s (16 * q + k) (suc n)
        ≡ hexes (16 * q + k) (suc n) (ending q (k + suc n) [])
  unfolding print_from hexes
  last_line zero q k s h hn hs =
      let end : s ≡ 16 * q + k + 1 = omega (arith, hs) in
      let one : k + 1 ≡ k + suc zero = omega arith in
      let i = 16 * q + k in
      before_byte-within q k (hex (bytes i) (after_byte bytes s i [])) h (omega (arith, hn))
      ∙ ap (hex (bytes i)) (
          ap (λ t. after_byte bytes t i []) end
          ∙ after_byte-last q k [] (omega (arith, hn))
          ∙ ap (λ c. ending q c []) one)
  last_line (suc n) q k s h hn hs =
      let i = 16 * q + k in
      let next : 16 * q + k + 1 ≡ 16 * q + (k + 1) = omega arith in
      let count : k + 1 + suc n ≡ k + suc (suc n) = omega arith in
      let rest = print_from bytes s (i + 1) (suc n) in
      before_byte-within q k (hex (bytes i) (after_byte bytes s i rest)) h (omega (arith, hn))
      ∙ ap (hex (bytes i)) (
          after_byte-within s i rest (omega (arith, hs))
          ∙ ap (λ j. print_from bytes s j (suc n)) next
          ∙ last_line n q (k + 1) s (omega arith) (omega (arith, hn)) (omega (arith, hs))
          ∙ ap₂ (λ j c. hexes j (suc n) (ending q c [])) (sym next) count)

  -- The rest of a full line that is not the last one.
  full_line :
      (m q k s n : ℕ)
      → 1 ≤ k
      → k + m ≡ 16
      → s ≡ 16 * q + 16 + suc n
      → print_from bytes s (16 * q + k) (m + suc n)
        ≡ hexes (16 * q + k) m (print_from bytes s (16 * q + 16) (suc n))
  unfolding print_from hexes
  full_line zero q k s n h hm hs =
      let next : 16 * q + k ≡ 16 * q + 16 = omega (arith, hm) in
      let count : 0 + suc n ≡ suc n = omega arith in
      rw count (ap (λ j. print_from bytes s j (suc n)) next)
  full_line (suc m) q k s n h hm hs =
      let i = 16 * q + k in
      let rest = print_from bytes s (i + 1) (m + suc n) in
      let next : 16 * q + k + 1 ≡ 16 * q + (k + 1) = omega arith in
      let count : suc m + suc n ≡ suc (m + suc n) = omega arith in
      rw count (
        before_byte-within q k (hex (bytes i) (after_byte bytes s i rest)) h (omega (arith, hm))
        ∙ ap (hex (bytes i)) (
            after_byte-within s i rest (omega (arith, hs, hm))
            ∙ ap (λ j. print_from bytes s j (m + suc n)) next
            ∙ full_line m q (k + 1) s n (omega arith) (omega (arith, hm)) hs
            ∙ ap (λ j. hexes j m (print_from bytes s (16 * q + 16) (suc n))) (sym next)))

  -- A line from its first byte on, with what is left of the data.
  unfoldable start : ℕ → ℕ → ℕ → List ℕ
  start s q n =
      blanks 3
        (hex (bytes (16 * q)) (after_byte bytes s (16 * q) (print_from bytes s (16 * q + 1) n)))

  start-first : (n : ℕ) → print_from bytes (suc n) 0 (suc n) ≡ start (suc n) 0 n
  unfolding print_from start before_byte
  start-first n = refl

  before_byte-line :
      (q : ℕ) (out : List ℕ)
      → before_byte bytes (16 * q + 16) out
        ≡ blanks 9 (text_column bytes (16 * q) 16 (10 ∷ blanks 3 out))
  unfolding before_byte
  before_byte-line q out =
      let digit : ((16 * q + 16) % 16 == 0) ≡ true = ground arith in
      let later : (16 * q + 16 == 0) ≡ false = ground arith in
      let first : 16 * q + 16 - 16 ≡ 16 * q = omega arith in rw (digit, later, first) refl

  start-next :
      (s q n : ℕ)
      → print_from bytes s (16 * q + 16) (suc n)
        ≡ blanks 9 (text_column bytes (16 * q) 16 (10 ∷ start s (suc q) n))
  unfolding print_from start before_byte
  start-next s q n =
      let i = 16 * q + 16 in
      let next : 16 * q + 16 ≡ 16 * suc q = omega arith in
      before_byte-line q (hex (bytes i) (after_byte bytes s i (print_from bytes s (i + 1) n)))
      ∙ ap
          (λ j. blanks 9 (
            text_column bytes (16 * q) 16 (
              10 ∷ blanks 3 (hex (bytes j) (after_byte bytes s j (print_from bytes s (j + 1) n))))))
          next

  start-last : (n q : ℕ) → suc n ≤ 16 → start (16 * q + suc n) q n ≡ line (16 * q) (suc n) []
  unfolding start line hexes ending print_from
  start-last zero q h =
      let here : 16 * q ≡ 16 * q + 0 = omega arith in
      let size : 16 * q + suc zero ≡ 16 * q + 0 + 1 = omega arith in
      let one : 0 + 1 ≡ suc zero = refl in
      ap (λ t. blanks 3 (hex (bytes (16 * q)) t))
        (ap₂ (λ t j. after_byte bytes t j []) size here ∙ after_byte-last q 0 [] (omega arith))
  start-last (suc n) q h =
      let s = 16 * q + suc (suc n) in
      let rest = print_from bytes s (16 * q + 1) (suc n) in
      let count : 1 + suc n ≡ suc (suc n) = omega arith in
      ap (λ t. blanks 3 (hex (bytes (16 * q)) t))
        (after_byte-within s (16 * q) rest (omega arith)
          ∙ last_line n q 1 s (omega arith) (omega (arith, h)) (omega arith)
          ∙ ap (λ c. hexes (16 * q + 1) (suc n) (ending q c [])) count)

  start-full :
      (n q : ℕ)
      → start (16 * q + 16 + suc n) q (15 + suc n)
        ≡ line (16 * q) 16 (start (16 * q + 16 + suc n) (suc q) n)
  unfolding start line hexes
  start-full n q =
      let s = 16 * q + 16 + suc n in
      let rest = print_from bytes s (16 * q + 1) (15 + suc n) in
      ap (λ t. blanks 3 (hex (bytes (16 * q)) t))
        (after_byte-within s (16 * q) rest (omega arith)
          ∙ full_line 15 q 1 s n (omega arith) (omega arith) refl
          ∙ ap (hexes (16 * q + 1) 15) (start-next s q n))

  start-dump :
      (m q r n : ℕ) → r < 16 → suc n ≡ 16 * m + r → start (16 * q + suc n) q n ≡ dump m (16 * q) r
  unfolding dump
  start-dump zero q r n h hn =
      let size : r ≡ suc n = omega (arith, hn) in
      let some_left : (suc n == 0) ≡ false = ground arith in
      rw (size, some_left) (start-last n q (omega (arith, h, size)))
  start-dump (suc m) q r n h hn = elim (Bool-cases (ltb n 16)) [
    | inl one ↦
        let size : n ≡ 15 = ground (arith, one, hn) in
        let lines : m ≡ 0 = ground (arith, one, hn) in
        let left : r ≡ 0 = ground (arith, one, hn) in
        rw (size, lines, left) (start-last 15 q (omega arith))
    | inr more ↦
        let n' = n - 16 in
        let rest : n ≡ 15 + suc n' = ground (arith, more) in
        let size : 16 * q + suc n ≡ 16 * q + 16 + suc n' = omega (arith, rest) in
        let next : 16 * q + 16 ≡ 16 * suc q = omega arith in
        let later = start-dump m (suc q) r n' h (omega (arith, hn, rest)) in
        ap₂ (λ s k. start s q k) size rest
        ∙ start-full n' q
        ∙ ap (line (16 * q) 16)
            (ap (λ j. start (j + suc n') (suc q) n') next ∙ later ∙ ap (λ j. dump m j r) (sym next))
  ]

-- PrintData prints a line for every 16 bytes and one for those that are left, where every line has the bytes
-- in hexadecimal, the width of 16 bytes, and the text_column of the same bytes.
pub print_data-dump :
    (bytes : ℕ → ℕ) (size : ℕ) → print_data bytes size ≡ dump bytes (size / 16) 0 (size % 16)
unfolding print_from dump
print_data-dump bytes zero = refl
print_data-dump bytes (suc n) =
    let size : suc n ≡ 16 * 0 + suc n = omega arith in
    start-first bytes n
    ∙ ap (λ s. start bytes s 0 n) size
    ∙ start-dump bytes (suc n / 16) 0 (suc n % 16) n (omega arith) (omega arith)
