-- ===== src/Udp/Upper.antt =====
-- What the client prints.
use cn.Base.{
  ℕ, ◌+◌, ◌-◌, ◌≤◌, ◌≡◌, refl, sym, ap, ◌∙◌, Bool, true, false, not, ◌&&◌, some, List, [], ◌∷◌,
  ◌++◌, map, take, take-all, drop, length, length-append, length-drop, append_assoc, leb, arith,
}
use cn.Readers.{overwrite, has_zero, print_text}
use cn.Readers.Buffer.{length-overwrite, overwrite-append}
use cn.Udp.{upper_loop, udp_server, fgets, sent, udp_session}
use cn.Udp.Raised.{
  take-append, before_zero-append, has_zero-ended, has_zero-upper, length-upper, upper_loop-upper,
  upper,
}

abbrev pub is_line : List ℕ → Bool
is_line line = not (has_zero line) && leb (length line) 1023

abbrev pub all_lines : List (List ℕ) → Bool
all_lines [] = true
all_lines (line ∷ lines) = is_line line && all_lines lines

-- A line as it stands in a buffer and in a datagram.
abbrev ended : List ℕ → List ℕ
ended line = line ++ 0 ∷ []

sent-fgets :
    (line buffer : List ℕ)
    → is_line line ≡ true
    → length buffer ≡ 1024
    → (fgets line buffer ≡ ended line ++ drop (length (ended line)) buffer)
      × (sent (fgets line buffer) ≡ ended line)
unfolding sent fgets
sent-fgets line buffer h size =
    let text : has_zero line ≡ false = ground (arith, h) in
    let short : length line ≤ 1023 = ground (arith, h) in
    let n : length (ended line) ≡ length line + 1 = length-append line (0 ∷ []) in
    let rest = drop (length (ended line)) buffer in
    let written : overwrite (take 1023 line ++ 0 ∷ []) buffer ≡ ended line ++ rest =
      ap (λ s. overwrite (s ++ 0 ∷ []) buffer) (take-all 1023 line short)
      ∙ overwrite-append (ended line) buffer (omega arith) in
    (
      written,
      rw (written, before_zero-append line rest text)
          (ap (λ k. take k (ended line ++ rest)) (sym n) ∙ take-append (ended line) rest),
    )

-- The server's round for the bytes that it has taken.
abbrev answer_to : List ℕ → List ℕ → List ℕ × List ℕ
answer_to bytes buffer =
    let upper = upper_loop (length bytes - 1) 0 (overwrite bytes buffer) in
    (take (length bytes) upper, upper)

answer_to-ended :
    (line buffer : List ℕ)
    → length (ended line) ≤ length buffer
    → answer_to (ended line) buffer
      ≡ (ended (upper line), ended (upper line) ++ drop (length (ended line)) buffer)
answer_to-ended line buffer h =
    let rest = drop (length (ended line)) buffer in
    let n : length (ended line) ≡ length line + 1 = length-append line (0 ∷ []) in
    let less : length (ended line) - 1 ≡ length line = omega (arith, n) in
    let raised : upper_loop (length line) 0 (overwrite (ended line) buffer)
        ≡ ended (upper line) ++ rest =
      ap (upper_loop (length line) 0)
        (overwrite-append (ended line) buffer h ∙ append_assoc line (0 ∷ []) rest)
      ∙ upper_loop-upper [] line (0 ∷ rest)
      ∙ sym (append_assoc (upper line) (0 ∷ []) rest) in
    let same : length (ended line) ≡ length (ended (upper line)) =
      omega (arith, n, length-append (upper line) (0 ∷ []), length-upper line) in
    ap
      (λ k. (
        take (length (ended line)) (upper_loop k 0 (overwrite (ended line) buffer)),
        upper_loop k 0 (overwrite (ended line) buffer),
      ))
      less
    ∙ ap (λ b. (take (length (ended line)) b, b)) raised
    ∙ ap (λ s. (s, ended (upper line) ++ rest))
        (ap (λ k. take k (ended (upper line) ++ rest)) same ∙ take-append (ended (upper line)) rest)

udp_server-upper :
    (line buffer : List ℕ)
    → is_line line ≡ true
    → length buffer ≡ 1024
    → (buffer' : List ℕ) × (udp_server buffer (ended line) ≡ (ended (upper line), buffer'))
      × (length buffer' ≡ 1024)
unfolding udp_server
udp_server-upper line buffer h size =
    let short : length line ≤ 1023 = ground (arith, h) in
    let n : length (ended line) ≡ length line + 1 = length-append line (0 ∷ []) in
    let n' : length (ended (upper line)) ≡ length (upper line) + 1 =
      length-append (upper line) (0 ∷ []) in
    let rest = drop (length (ended line)) buffer in
    (
      ended (upper line) ++ rest,
      ap (λ s. answer_to s buffer) (take-all 1024 (ended line) (omega (arith, n)))
          ∙ answer_to-ended line buffer (omega (arith, n)),
      omega (
        arith,
        n,
        n',
        length-upper line,
        length-append (ended (upper line)) rest,
        length-drop (length (ended line)) buffer,
      ),
    )

-- What the client shows of an answer.
shown-upper :
    (line client : List ℕ)
    → is_line line ≡ true
    → length (ended (upper line)) ≤ length client
    → print_text (overwrite (ended (upper line)) client) ≡ some (upper line)
shown-upper line client h fits =
    let rest = drop (length (ended (upper line))) client in
    let text = has_zero-upper line (ground (arith, h)) in
    rw
      (
        overwrite-append (ended (upper line)) client fits,
        has_zero-ended (upper line) rest,
        before_zero-append (upper line) rest text,
      )
      refl

length-fgets : (line buffer : List ℕ) → length (fgets line buffer) ≡ length buffer
unfolding fgets
length-fgets line buffer = length-overwrite (take 1023 line ++ 0 ∷ []) buffer

-- For each line that is typed, of at most 1023 characters with its end, the client prints that line in upper case,
-- whatever was in the two buffers before and however many lines came before it.
pub udp_session-upper :
    (server client : List ℕ) (lines : List (List ℕ))
    → length server ≡ 1024
    → length client ≡ 1024
    → all_lines lines ≡ true
    → udp_session server client lines ≡ some (map upper lines)
unfolding udp_session
udp_session-upper server client [] size size' h = refl
udp_session-upper server client (line ∷ lines) size size' h =
    let here : is_line line ≡ true = ground (arith, h) in
    let (written, was_sent) = sent-fgets line client here size' in
    let (server', answered, kept) = udp_server-upper line server here size in
    let client' = fgets line client in
    let short : length line ≤ 1023 = ground (arith, here) in
    let n : length (ended (upper line)) ≡ length (upper line) + 1 =
      length-append (upper line) (0 ∷ []) in
    let few : length (ended (upper line)) ≤ 1024 = omega (arith, n, length-upper line) in
    let whole : take 1024 (ended (upper line)) ≡ ended (upper line) =
      take-all 1024 (ended (upper line)) few in
    let kept' : length client' ≡ 1024 = length-fgets line client ∙ size' in
    let client'' = overwrite (ended (upper line)) client' in
    let later =
      udp_session-upper server' client'' lines kept
        (length-overwrite (ended (upper line)) client' ∙ kept') (ground (arith, h)) in
    rw (was_sent, answered, whole, shown-upper line client' here (omega (arith, few, kept')), later)
      refl
