-- ===== src/Nfs/Client/Commands.antt =====
-- What the client calls for the lines that its usage texts describe.
use mathlib.Core.List.{reverse, reverse-cons}
use cn.Base.{
  ℕ, zero, suc, ◌+◌, ◌-◌, ◌*◌, ◌^◌, ◌≤◌, ◌<◌, ◌≡◌, refl, ap, ◌∙◌, true, false, List, [], ◌∷◌, ◌++◌,
  ltb, length, length-append, take-all, arith, Bool-cases, inl, inr,
}
use cn.Base.Int.{pos}
use cn.Decimal.{
  AllDigits, print_int, print_digits, print_digits-AllDigits, length-print_digits, atoi-print_int,
}
use cn.Nfs.Text.{text, atoi, digits, signed, is_space, to_unsigned}
use cn.Nfs.Client.{
  get_command_type, Request, call, overrun, max_args, dispatch, nfs_remote, perm_bit, with_filename,
}
use cn.Nfs.Client.Octal.{characters, value, perm_bit-reverse}
use cn.Nfs.Client.Words.{
  Plain, Plain-is_plain, IsWord, AllWords, join, ended, strtok-command, read_args-join, strip-Plain,
  strip-ended,
}

-- A line: the command and its words.
abbrev pub line : List ℕ → List (List ℕ) → List ℕ
line command ws = command ++ 32 ∷ join ws

nfs_remote-line :
    (command : List ℕ) (ws : List (List ℕ))
    → IsWord command
    → AllWords ws
    → length ws ≤ max_args
    → length (line command ws) < 1024
    → nfs_remote (line command ws) ≡ dispatch (get_command_type command) (ended ws)
unfolding nfs_remote
nfs_remote-line command ws c h k few = rw (
  take-all 1023 (line command ws) (omega arith),
  strtok-command command (join ws) c,
  read_args-join max_args ws h k,
)

digits-ended : (n : ℕ) (s : List ℕ) → digits n (s ++ 10 ∷ []) ≡ digits n s
digits-ended n [] = refl
digits-ended n (c ∷ s) = rw (digits-ended (n * 10 + (c - 48)) s)

signed-ended : (c : ℕ) (s : List ℕ) → signed (c ∷ (s ++ 10 ∷ [])) ≡ signed (c ∷ s)
signed-ended c s = rw (digits-ended 0 s, digits-ended (0 * 10 + (c - 48)) s)

-- A newline behind a number changes nothing.
atoi-ended : (s : List ℕ) → atoi (s ++ 10 ∷ []) ≡ atoi s
unfolding atoi
atoi-ended [] = refl
atoi-ended (c ∷ s) = elim (Bool-cases (is_space c)) [
  | inl space ↦ rw space (atoi-ended s)
  | inr other ↦ rw other (signed-ended c s)
]

-- The commands as the usage texts describe them: the words and numbers that are typed. The permissions are the
-- octal digits of a number, the lowest one first.
pub data Typed : Type 0 where
  ls cd getattr remove : (path : List ℕ) → Typed
  setattr mkdir touch : (path perm_digits : List ℕ) → Typed
  read : (filename : List ℕ) (offset size : ℕ) → Typed
  write : (filename msg : List ℕ) (offset size : ℕ) → Typed

-- An octal number as it is written, and a decimal one.
abbrev pub octal : List ℕ → List ℕ
octal ds = reverse (characters ds)

abbrev pub decimal : ℕ → List ℕ
decimal n = print_int (pos n)

abbrev pub typed_line : Typed → List ℕ
typed_line (Typed.ls w) = line (text "ls") (w ∷ [])
typed_line (Typed.cd w) = line (text "cd") (w ∷ [])
typed_line (Typed.getattr w) = line (text "getattr") (w ∷ [])
typed_line (Typed.remove w) = line (text "remove") (w ∷ [])
typed_line (Typed.setattr w p) = line (text "setattr") (w ∷ octal p ∷ [])
typed_line (Typed.mkdir w p) = line (text "mkdir") (w ∷ octal p ∷ [])
typed_line (Typed.touch w p) = line (text "touch") (w ∷ octal p ∷ [])
typed_line (Typed.read w o n) = line (text "read") (w ∷ decimal o ∷ decimal n ∷ [])
typed_line (Typed.write w m o n) = line (text "write") (w ∷ m ∷ decimal o ∷ decimal n ∷ [])

-- Numbers that an `int` holds: up to ten octal digits, at least one of them, and an offset or size below 2^31.
abbrev pub AllOctal : List ℕ → Type 0
AllOctal [] = Unit
AllOctal (d ∷ ds) = (d < 8) × AllOctal ds

abbrev pub IsPerm : List ℕ → Type 0
IsPerm ds = AllOctal ds × (1 ≤ length ds) × (length ds ≤ 10)

abbrev pub IsInt : ℕ → Type 0
IsInt n = n < 2 ^ 31

-- What the words must be: no blanks in them, and a filename that has room in the message.
abbrev pub IsTyped : Typed → Type 0
IsTyped (Typed.ls w) = IsWord w
IsTyped (Typed.cd w) = IsWord w
IsTyped (Typed.getattr w) = IsWord w
IsTyped (Typed.remove w) = IsWord w
IsTyped (Typed.setattr w p) = IsWord w × IsPerm p
IsTyped (Typed.mkdir w p) = IsWord w × IsPerm p
IsTyped (Typed.touch w p) = IsWord w × IsPerm p
IsTyped (Typed.read w o n) = IsWord w × IsInt o × IsInt n × (length w < 128)
IsTyped (Typed.write w m o n) = IsWord w × IsWord m × IsInt o × IsInt n × (length w < 128)

-- The remote call that a command means, with the numbers themselves.
abbrev pub meant : Typed → Request
meant (Typed.ls w) = Request.ls w
meant (Typed.cd w) = Request.cd w
meant (Typed.getattr w) = Request.getattr w
meant (Typed.remove w) = Request.remove w
meant (Typed.setattr w p) = Request.setattr w (value p)
meant (Typed.mkdir w p) = Request.mkdir w (value p)
meant (Typed.touch w p) = Request.touch w (value p)
meant (Typed.read w o n) = Request.read w o n
meant (Typed.write w m o n) = Request.write w m o n

digits-Plain : (s : List ℕ) → AllDigits s → Plain s
unfolding AllDigits
digits-Plain [] h = tt
digits-Plain (c ∷ s) (lo, hi, h) = (ground arith, ground arith, digits-Plain s h)

Plain-IsWord : (s : List ℕ) → Plain s → 1 ≤ length s → IsWord s
Plain-IsWord [] h k = absurd (omega arith)
Plain-IsWord (c ∷ s) h k = h

decimal-IsWord : (n : ℕ) → IsWord (decimal n)
unfolding print_int
decimal-IsWord n =
    Plain-IsWord (decimal n) (digits-Plain (print_digits n n) (print_digits-AllDigits n n))
      (length-print_digits n n)

append-Plain : (s t : List ℕ) → Plain s → Plain t → Plain (s ++ t)
append-Plain [] t h k = k
append-Plain (c ∷ s) t (b, n, h) k = (b, n, append-Plain s t h k)

octal-Plain : (ds : List ℕ) → AllOctal ds → Plain (octal ds)
octal-Plain [] h = tt
octal-Plain (d ∷ ds) (small, h) =
    rw (reverse-cons (48 + d) (characters ds))
      (append-Plain (octal ds) ((48 + d) ∷ []) (octal-Plain ds h) (ground arith, ground arith, tt))

octal-IsWord : (ds : List ℕ) → IsPerm ds → IsWord (octal ds)
octal-IsWord [] (h, some, few) = absurd (omega arith)
octal-IsWord (d ∷ ds) (h, some, few) = Plain-IsWord (octal (d ∷ ds)) (octal-Plain (d ∷ ds) h) (
    rw (reverse-cons (48 + d) (characters ds))
      (omega (arith, length-append (octal ds) ((48 + d) ∷ []))))

value-lt : (ds : List ℕ) (k : ℕ) → AllOctal ds → length ds ≤ k → value ds < 8 ^ k
value-lt [] zero h few = omega arith
value-lt [] (suc k) h few = let rest = value-lt [] k tt (omega arith) in omega arith
value-lt (d ∷ ds) zero h few = absurd (omega arith)
value-lt (d ∷ ds) (suc k) (small, h) few = let rest = value-lt ds k h (omega arith) in omega arith

to_unsigned-small : (n : ℕ) → n < 2 ^ 31 → to_unsigned (pos n) ≡ n
to_unsigned-small n h = omega arith

perm-meant : (ds : List ℕ) → IsPerm ds → to_unsigned (perm_bit (octal ds)) ≡ value ds
perm-meant ds (h, some, few) =
    ap to_unsigned (perm_bit-reverse ds)
    ∙ to_unsigned-small (value ds) (omega (arith, value-lt ds 10 h few))

int-meant : (n : ℕ) → IsInt n → to_unsigned (atoi (decimal n)) ≡ n
int-meant n h = ap to_unsigned (atoi-print_int (pos n)) ∙ to_unsigned-small n h

int-meant_ended : (n : ℕ) → IsInt n → to_unsigned (atoi (decimal n ++ 10 ∷ [])) ≡ n
int-meant_ended n h = ap to_unsigned (atoi-ended (decimal n)) ∙ int-meant n h

with_filename-call : (w : List ℕ) (r : Request) → length w < 128 → with_filename w r ≡ call r
with_filename-call w r h = let room : ltb (length w) 128 ≡ true = ground arith in rw room

-- Each command, typed as the usage texts describe it in a line of at most 1023 characters, becomes the remote call
-- that it means, with exactly the words that were typed, the offset and size whose decimal digits were typed, and
-- the permissions whose octal digits were typed.
pub nfs_remote-typed_line :
    (t : Typed)
    → IsTyped t
    → length (typed_line t) < 1024
    → nfs_remote (typed_line t) ≡ call (meant t)
unfolding get_command_type dispatch
nfs_remote-typed_line (Typed.ls w) h few =
    nfs_remote-line (text "ls") (w ∷ []) (Plain-is_plain (text "ls") refl) (h, tt) (omega arith) few
    ∙ rw (strip-ended w h)
nfs_remote-typed_line (Typed.cd w) h few =
    nfs_remote-line (text "cd") (w ∷ []) (Plain-is_plain (text "cd") refl) (h, tt) (omega arith) few
    ∙ rw (strip-ended w h)
nfs_remote-typed_line (Typed.getattr w) h few =
    nfs_remote-line (text "getattr") (w ∷ []) (Plain-is_plain (text "getattr") refl) (h, tt)
      (omega arith) few
    ∙ rw (strip-ended w h)
nfs_remote-typed_line (Typed.remove w) h few =
    nfs_remote-line (text "remove") (w ∷ []) (Plain-is_plain (text "remove") refl) (h, tt)
      (omega arith) few
    ∙ rw (strip-ended w h)
nfs_remote-typed_line (Typed.setattr w p) (h, k) few =
    let word = octal-IsWord p k in
    nfs_remote-line (text "setattr") (w ∷ octal p ∷ []) (Plain-is_plain (text "setattr") refl)
      (h, (word, tt)) (omega arith) few
    ∙ rw (strip-Plain w h, strip-ended (octal p) word, perm-meant p k)
nfs_remote-typed_line (Typed.mkdir w p) (h, k) few =
    let word = octal-IsWord p k in
    nfs_remote-line (text "mkdir") (w ∷ octal p ∷ []) (Plain-is_plain (text "mkdir") refl)
      (h, (word, tt)) (omega arith) few
    ∙ rw (strip-Plain w h, strip-ended (octal p) word, perm-meant p k)
nfs_remote-typed_line (Typed.touch w p) (h, k) few =
    let word = octal-IsWord p k in
    nfs_remote-line (text "touch") (w ∷ octal p ∷ []) (Plain-is_plain (text "touch") refl)
      (h, (word, tt)) (omega arith) few
    ∙ rw (strip-Plain w h, strip-ended (octal p) word, perm-meant p k)
nfs_remote-typed_line (Typed.read w o n) (h, k, l, short) few =
    nfs_remote-line (text "read") (w ∷ decimal o ∷ decimal n ∷ [])
      (Plain-is_plain (text "read") refl) (h, (decimal-IsWord o, (decimal-IsWord n, tt)))
      (omega arith) few
    ∙ rw (strip-Plain w h, int-meant o k, int-meant_ended n l)
        (with_filename-call w (meant (Typed.read w o n)) short)
nfs_remote-typed_line (Typed.write w m o n) (h, k, l, j, short) few =
    nfs_remote-line (text "write") (w ∷ m ∷ decimal o ∷ decimal n ∷ [])
      (Plain-is_plain (text "write") refl) (h, (k, (decimal-IsWord o, (decimal-IsWord n, tt))))
      (omega arith) few
    ∙ rw (strip-Plain w h, strip-Plain m k, int-meant o l, int-meant_ended n j)
        (with_filename-call w (meant (Typed.write w m o n)) short)

-- A filename of 128 characters or more in a read command is copied beyond the end of the message's field.
pub long_filename_overruns :
    (w : List ℕ) (o n : ℕ)
    → IsWord w
    → 128 ≤ length w
    → length (typed_line (Typed.read w o n)) < 1024
    → nfs_remote (typed_line (Typed.read w o n)) ≡ overrun
unfolding get_command_type dispatch
long_filename_overruns w o n h long few =
    let no_room : ltb (length w) 128 ≡ false = ground arith in
    nfs_remote-line (text "read") (w ∷ decimal o ∷ decimal n ∷ [])
      (Plain-is_plain (text "read") refl) (h, (decimal-IsWord o, (decimal-IsWord n, tt)))
      (omega arith) few
    ∙ rw (strip-Plain w h, no_room)
