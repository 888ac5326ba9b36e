-- ===== src/Ftp/Tests.antt =====
-- A file of two words, with and without a newline at its end.
use cn.Base.{ℕ, ◌≡◌, refl, true, List, [], ◌∷◌, Option, none, some, if◌then◌else◌}
use cn.Nfs.Text.{text, equal}
use cn.Ftp.{Sending, sent, send_file}
use cn.Ftp.Words.{words, ends_word}
use cn.Ftp.Transfer.{all_fit, lines_of, send_file-words}

abbrev hello : List ℕ
hello = text "hello world"

abbrev with_newline : List ℕ
with_newline = text "hello  world\n"

abbrev directory : List ℕ → Option (List ℕ)
directory name = if equal name (text "sample.txt") then some with_newline else none

send_file-words_example : send_file with_newline [] ≡ (
    if all_fit (words with_newline)
    then sent (lines_of (ends_word with_newline) [] (words with_newline))
    else Sending.overrun)
send_file-words_example = send_file-words with_newline []

sent_once : send_file hello [] ≡ sent (text "hello" ∷ text "world" ∷ [])
unfolding send_file
sent_once = refl

sent_again : send_file with_newline [] ≡ sent (text "hello" ∷ text "world" ∷ text "world" ∷ [])
unfolding send_file
sent_again = refl

words_fit : all_fit (words with_newline) ≡ true
unfolding words
words_fit = refl
