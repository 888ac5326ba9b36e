-- ===== src/Ftp.antt =====
-- ftp/passive and ftp/active, client.c and server.c of each: a file is sent over a second connection, word by
-- word. What one call of `send` sends is what one call of `recv` receives, and a text is what stands before the
-- zero byte, which no file has. The calls on sockets are taken to succeed where a port is listened on.
pub mod Words
pub mod Transfer
mod Tests
use cn.Base.{
  ℕ, zero, suc, ◌+◌, Bool, true, false, Option, none, some, List, [], ◌∷◌, ◌++◌, ◌==◌,
  if◌then◌else◌, ltb, length, ◌>>=◌,
}
use cn.Base.Int.{ℤ, pos, eqb_ℤ}
use cn.Nfs.Text.{text, atoi, is_space, skip}
use cn.Decimal.{print_int}

-- The characters up to the next white space, and those from it on.
abbrev pub take_word : List ℕ → List ℕ
take_word [] = []
take_word (c ∷ s) = if is_space c then [] else c ∷ take_word s

abbrev pub drop_word : List ℕ → List ℕ
drop_word [] = []
drop_word (c ∷ s) = if is_space c then c ∷ s else drop_word s

-- What the sender's loop comes to: the texts that it has sent, a write behind `buf`, or no end within the fuel.
pub data Sending : Type 0 where
  sent : List (List ℕ) → Sending
  overrun unfinished : Sending

abbrev pub and_sent : List ℕ → Sending → Sending
and_sent buf (sent later) = sent (buf ∷ later)
and_sent buf overrun = overrun
and_sent buf unfinished = unfinished

-- The size of `buf`.
abbrev pub room : ℕ
room = 255

-- The rest of a round, once a word is in `buf`: it is sent, and the loop goes on if the end of the file was not
-- seen, since something stands behind the word.
abbrev pub send_word : List ℕ → List ℕ → (List ℕ → List ℕ → Sending) → Sending
send_word word [] loop = sent (word ∷ [])
send_word word (c ∷ rest) loop = and_sent word (loop (c ∷ rest) word)

-- A round, for what stands behind white space: `fscanf` leaves `buf` as it was if this is nothing, and the end of
-- the file is seen.
abbrev pub scan_word : List ℕ → List ℕ → (List ℕ → List ℕ → Sending) → Sending
scan_word buf [] loop = sent (buf ∷ [])
scan_word buf (c ∷ s) loop =
    let next = send_word (take_word (c ∷ s)) (drop_word (c ∷ s)) loop in
    if ltb (length (take_word (c ∷ s))) room then next else overrun

-- `while(!feof(fp))`, for the rest of the file and the text in `buf`.
unfoldable pub send_words : ℕ → List ℕ → List ℕ → Sending
send_words zero file buf = unfinished
send_words (suc fuel) file buf =
    scan_word buf (skip is_space file) (λ rest word. send_words fuel rest word)

unfoldable pub send_file : List ℕ → List ℕ → Sending
unfolding send_words
send_file file buf = send_words (length file + 1) file buf

-- The client's loop: a line for each text that comes before the server ends.
abbrev pub print_received : Sending → Option (List (List ℕ))
print_received (sent texts) = some texts
print_received overrun = none
print_received unfinished = none

-- Both programs of ftp/passive, with the files that can be opened and what stands in the server's `buf`: the lines
-- that the client prints, or `none` if there is no file, no connection, or a write behind `buf`.
unfoldable pub passive : (List ℕ → Option (List ℕ)) → List ℕ → Option (List (List ℕ))
unfolding send_file
passive files buf = do
  let portbuf = print_int (pos 8050)
  let port = atoi portbuf
  let name = text "sample.txt"
  file ← files name
  if eqb_ℤ port (pos 8050) then print_received (send_file file buf) else none

-- Both programs of ftp/active.
unfoldable pub active : (List ℕ → Option (List ℕ)) → List ℕ → Option (List (List ℕ))
unfolding send_file
active files buf = do
  let namebuf = print_int (pos 8040)
  let name = text "sample.txt"
  let port = atoi namebuf
  file ← files name
  if eqb_ℤ port (pos 8040) then print_received (send_file file buf) else none
