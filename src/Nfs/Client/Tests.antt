-- ===== src/Nfs/Client/Tests.antt =====
-- Lines that a user may type.
use cn.Base.{ℕ, ◌≡◌, refl, List, [], ◌∷◌, arith, replicate}
use cn.Nfs.Text.{text, strtok}
use cn.Decimal.{print_int, print_digits}
use cn.Nfs.Client.{call, usage, null_pointer, nfs_remote, read_args, dispatch, get_command_type}
use cn.Nfs.Client.Words.{Plain-is_plain}
use cn.Nfs.Client.Commands.{Typed, typed_line, meant, nfs_remote-typed_line}

abbrev read_notes : Typed
read_notes = Typed.read (text "notes") 10 200

nfs_remote-typed_line_example : nfs_remote (typed_line read_notes) ≡ call (meant read_notes)
unfolding print_int print_digits
nfs_remote-typed_line_example =
    nfs_remote-typed_line read_notes
      (Plain-is_plain (text "notes") refl, omega arith, omega arith, omega arith) (omega arith)

-- Octal digits are typed from the highest one on.
permissions : typed_line (Typed.mkdir (text "d") (4 ∷ 0 ∷ 7 ∷ [])) ≡ text "mkdir d 704\n"
permissions = refl

-- 128 times the letter a.
abbrev long : List ℕ
long = replicate 128 97

-- A blank behind the last word is one more argument, and so the usage text is printed.
trailing_blank : nfs_remote (text "ls docs \n") ≡ usage
unfolding nfs_remote dispatch read_args get_command_type strtok
trailing_blank = refl

empty_line : nfs_remote (text "\n") ≡ null_pointer
unfolding nfs_remote strtok
empty_line = refl
