-- ===== src/Ftp/Transfer.antt =====
-- What the client prints of a file.
use cn.Base.{
  ℕ, zero, suc, ◌+◌, ◌<◌, ◌≡◌, refl, sym, ap, ap₂, ◌∙◌, Bool, true, false, not, ◌&&◌, Option, some,
  List, [], ◌∷◌, ◌++◌, if◌then◌else◌, ltb, length, arith, Bool-cases, inl, inr,
}
use cn.Base.Int.{pos}
use cn.Nfs.Text.{text, is_space, skip}
use cn.Decimal.{atoi-print_int}
use cn.Ftp.{
  take_word, drop_word, Sending, sent, overrun, and_sent, room, send_word, scan_word, send_words,
  send_file, passive, active,
}
use cn.Ftp.Words.{
  words, ends_word, ends_or_true, words-skip, words-take_word, ends_word-skip, ends_word-drop_word,
  length-skip, length-drop_word,
}

-- Every word has room in `buf`, with the zero byte.
abbrev pub all_fit : List (List ℕ) → Bool
all_fit [] = true
all_fit (w ∷ ws) = ltb (length w) room && all_fit ws

-- What stands in `buf` in the end.
abbrev pub last_or : List ℕ → List (List ℕ) → List ℕ
last_or buf [] = buf
last_or buf (w ∷ ws) = last_or w ws

-- The texts that are sent: the words, and the last one once more if the file does not end with a word.
abbrev pub lines_of : Bool → List ℕ → List (List ℕ) → List (List ℕ)
lines_of ends buf ws = ws ++ (if ends then [] else last_or buf ws ∷ [])

abbrev pub outcome : Bool → List ℕ → List (List ℕ) → Sending
outcome ends buf ws = if all_fit ws then sent (lines_of ends buf ws) else overrun

outcome-cons :
    (ends : Bool) (buf w : List ℕ) (ws : List (List ℕ))
    → ltb (length w) room ≡ true
    → and_sent w (outcome ends w ws) ≡ outcome ends buf (w ∷ ws)
outcome-cons ends buf w ws short = elim (Bool-cases (all_fit ws)) [
  | inl fit ↦ rw (short, fit) refl
  | inr long ↦ rw (short, long) refl
]

-- Nothing, or a text that begins with a word.
abbrev begins_or_empty : List ℕ → Bool
begins_or_empty [] = true
begins_or_empty (c ∷ s) = not (is_space c)

skip-begins : (s : List ℕ) → begins_or_empty (skip is_space s) ≡ true
skip-begins [] = refl
skip-begins (c ∷ s) = elim (Bool-cases (is_space c)) [
  | inl space ↦ rw space (skip-begins s)
  | inr other ↦ rw other (rw other refl)
]

-- What one round does with a word, if the loop does what it should on the rest.
round-outcome :
    (buf w rest : List ℕ) (loop : List ℕ → List ℕ → Sending)
    → loop rest w ≡ outcome (ends_word rest) w (words rest)
    → (if ltb (length w) room then send_word w rest loop else overrun)
      ≡ outcome (ends_or_true rest) buf (w ∷ words rest)
unfolding words
round-outcome buf w [] loop later = elim (Bool-cases (ltb (length w) room)) [
  | inl short ↦ rw short refl
  | inr long ↦ rw long refl
]
round-outcome buf w (c ∷ rest) loop later = elim (Bool-cases (ltb (length w) room)) [
  | inl short ↦ in_room short
  | inr long ↦ rw long refl
]
  where
    in_room :
        ltb (length w) room ≡ true
        → (if ltb (length w) room then and_sent w (loop (c ∷ rest) w) else overrun)
          ≡ outcome (ends_word (c ∷ rest)) buf (w ∷ words (c ∷ rest))
    in_room short =
        ap (λ b. if b then and_sent w (loop (c ∷ rest) w) else overrun) short
        ∙ ap (and_sent w) later
        ∙ outcome-cons (ends_word (c ∷ rest)) buf w (words (c ∷ rest)) short

nothing-outcome : (buf : List ℕ) → sent (buf ∷ []) ≡ outcome (ends_word []) buf (words [])
unfolding words ends_word
nothing-outcome buf = refl

was_false : (b : Bool) → not b ≡ true → b ≡ false
was_false true h = sym h
was_false false h = refl

scan_word-outcome :
    (buf s : List ℕ) (loop : List ℕ → List ℕ → Sending)
    → ((rest w : List ℕ)
        → length rest < length s
        → loop rest w ≡ outcome (ends_word rest) w (words rest))
    → begins_or_empty s ≡ true
    → scan_word buf s loop ≡ outcome (ends_word s) buf (words s)
scan_word-outcome buf [] loop later begins = nothing-outcome buf
scan_word-outcome buf (c ∷ s) loop later begins =
    let other : is_space c ≡ false = was_false (is_space c) begins in
    round-outcome buf (take_word (c ∷ s)) (drop_word (c ∷ s)) loop
      (later (drop_word (c ∷ s)) (take_word (c ∷ s)) (rw other (omega (arith, length-drop_word s))))
    ∙ sym (
        ap₂ (λ ends ws. outcome ends buf ws) (ends_word-drop_word c s other)
          (words-take_word c s other))

send_words-outcome :
    (fuel : ℕ) (file buf : List ℕ)
    → length file < fuel
    → send_words fuel file buf ≡ outcome (ends_word file) buf (words file)
unfolding send_words
send_words-outcome zero file buf enough = absurd (omega arith)
send_words-outcome (suc fuel) file buf enough =
    scan_word-outcome buf (skip is_space file) (λ rest word. send_words fuel rest word)
      (λ rest w shorter. send_words-outcome fuel rest w (omega (arith, length-skip file)))
      (skip-begins file)
    ∙ ap₂ (λ ends ws. outcome ends buf ws) (ends_word-skip file) (words-skip file)

-- The server sends exactly the words of the file, in order, and if the file does not end with one, what then
-- stands in `buf` once more: the last word, or what stood there before if there is no word. It always ends; it
-- writes behind `buf` if and only if some word has 255 characters or more.
pub send_file-words :
    (file buf : List ℕ)
    → send_file file buf ≡ (
        if all_fit (words file) then sent (lines_of (ends_word file) buf (words file)) else overrun)
unfolding send_file
send_file-words file buf = send_words-outcome (length file + 1) file buf (omega arith)

-- Over either protocol, the client finds the server's port, asks for the file that is there, and prints, if all its
-- words fit, its words, and once more what stands in `buf` in the end unless the file ends with a word.
pub passive-active :
    (files : List ℕ → Option (List ℕ)) (file buf : List ℕ)
    → files (text "sample.txt") ≡ some file
    → all_fit (words file) ≡ true
    → (passive files buf ≡ some (lines_of (ends_word file) buf (words file)))
      × (active files buf ≡ some (lines_of (ends_word file) buf (words file)))
unfolding passive active
passive-active files file buf there fit =
    let lines : send_file file buf ≡ sent (lines_of (ends_word file) buf (words file)) =
      send_file-words file buf ∙ rw fit refl in
    (
      rw (there, atoi-print_int (pos 8050), lines) refl,
      rw (there, atoi-print_int (pos 8040), lines) refl,
    )
