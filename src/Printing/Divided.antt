-- ===== src/Printing/Divided.antt =====
-- How the bytes of the file are divided.
use cn.Base.{
  ℕ, ◌+◌, ◌≤◌, ◌≡◌, refl, sym, ap, ◌∙◌, Bool, true, ◌&&◌, some, List, [], ◌∷◌, ◌++◌, map, take,
  drop, length, get_elem?, leb, arith,
}
use cn.Readers.{overwrite, before_zero}
use cn.Printing.{
  Process, parent, child, Turn, State, PrintedLine, next_bytes, buffer_of, with_buffer,
  read_and_print, print_turns,
}
use cn.Readers.Buffer.{length-overwrite, get_elem?-overwrite, has_zero-get_elem?, take_short}
use cn.Printing.Bytes.{take-further}

-- A buffer of 30 bytes with a zero in the last one.
abbrev pub IsBuffer : List ℕ → Type 0
IsBuffer buffer = (length buffer ≡ 30) × (get_elem? buffer 29 ≡ some 0)

abbrev pub HasBuffers : State → Type 0
HasBuffers s = IsBuffer s.parent_buffer × IsBuffer s.child_buffer

-- At most 29 bytes are asked for.
abbrev pub all_short : List Turn → Bool
all_short [] = true
all_short (turn ∷ turns) = leb turn.nbytes 29 && all_short turns

abbrev pub total : List Turn → ℕ
total [] = 0
total (turn ∷ turns) = turn.nbytes + total turns

abbrev pub concat : List (List ℕ) → List ℕ
concat [] = []
concat (xs ∷ xss) = xs ++ concat xss

overwrite-IsBuffer :
    (bytes buffer : List ℕ)
    → length bytes ≤ 29
    → IsBuffer buffer
    → IsBuffer (overwrite bytes buffer)
overwrite-IsBuffer bytes buffer h (size, last) =
    (length-overwrite bytes buffer ∙ size, get_elem?-overwrite bytes buffer 29 h ∙ last)

abbrev after : State → Turn → State
after s turn =
    let bytes = next_bytes s turn.nbytes in
    record (with_buffer turn.process (overwrite bytes (buffer_of turn.process s)) s) {
      offset = s.offset + length bytes;
    }

-- What a process prints: its buffer up to the first zero, the new bytes and what earlier reads have left behind them.
abbrev shown : State → Turn → PrintedLine
shown s turn =
    let bytes = next_bytes s turn.nbytes in
    record {
      process = turn.process;
      bytes = bytes;
      line = before_zero (overwrite bytes (buffer_of turn.process s));
    }

IsBuffer-of : (p : Process) (s : State) → HasBuffers s → IsBuffer (buffer_of p s)
IsBuffer-of parent s (a, b) = a
IsBuffer-of child s (a, b) = b

HasBuffers-with :
    (p : Process) (buffer : List ℕ) (s : State) (offset : ℕ)
    → IsBuffer buffer
    → HasBuffers s
    → HasBuffers (record (with_buffer p buffer s) { offset = offset })
HasBuffers-with parent buffer s offset h (a, b) = (h, b)
HasBuffers-with child buffer s offset h (a, b) = (a, h)

content-with :
    (p : Process) (buffer : List ℕ) (s : State) → (with_buffer p buffer s).content ≡ s.content
content-with parent buffer s = refl
content-with child buffer s = refl

read_and_print-after :
    (s : State) (turn : Turn)
    → HasBuffers s
    → turn.nbytes ≤ 29
    → read_and_print s turn ≡ some (after s turn, shown s turn)
unfolding read_and_print
read_and_print-after s turn has short =
    let bytes = next_bytes s turn.nbytes in
    let (size, last) = IsBuffer-of turn.process s has in
    let few : length bytes ≤ 29 = omega (arith, take_short turn.nbytes (drop s.offset s.content)) in
    let fits : leb (length bytes) (length (buffer_of turn.process s)) ≡ true =
      ground (arith, size, few) in
    let (size', last') = overwrite-IsBuffer bytes (buffer_of turn.process s) few (size, last) in
    let ended = has_zero-get_elem? (overwrite bytes (buffer_of turn.process s)) 29 last' in
    rw (fits, ended) refl

-- As long as at most 29 bytes are asked for at a time and the last byte of both buffers is zero, every turn of either
-- process prints a line, and in whatever order the two take their turns, the bytes that they read are, one after the
-- other, those of the file from its position on: no byte comes to both of them, and none is left out.
pub print_turns-divided :
    (s : State) (turns : List Turn)
    → HasBuffers s
    → all_short turns ≡ true
    → (printed : List PrintedLine) × (print_turns s turns ≡ some printed)
      × (map (λ p. p.process) printed ≡ map (λ turn. turn.process) turns)
      × (concat (map (λ p. p.bytes) printed) ≡ take (total turns) (drop s.offset s.content))
unfolding print_turns
print_turns-divided s [] has h = ([], refl, refl, refl)
print_turns-divided s (turn ∷ turns) has h =
    let short : turn.nbytes ≤ 29 = ground (arith, h) in
    let bytes = next_bytes s turn.nbytes in
    let few : length bytes ≤ 29 = omega (arith, take_short turn.nbytes (drop s.offset s.content)) in
    let buffer = overwrite bytes (buffer_of turn.process s) in
    let has' =
      HasBuffers-with turn.process buffer s (s.offset + length bytes)
        (overwrite-IsBuffer bytes (buffer_of turn.process s) few (IsBuffer-of turn.process s has))
        has in
    let (later, printed, who, divided) =
      print_turns-divided (after s turn) turns has' (ground (arith, h)) in
    (
      shown s turn ∷ later,
      rw (read_and_print-after s turn has short, printed) refl,
      ap (◌∷◌ turn.process) who,
      ap (◌++◌ bytes) (
            divided
            ∙ ap (λ c. take (total turns) (drop (s.offset + length bytes) c))
                (content-with turn.process buffer s))
          ∙ sym (take-further turn.nbytes (total turns) s.offset s.content),
    )
