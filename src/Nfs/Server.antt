-- ===== src/Nfs/Server.antt =====
-- rpc/nfs/nfs_server.c
pub mod Perms
pub mod Handlers
pub mod Descriptors
pub mod Listing
mod Tests
use cn.Base.{ℕ, ◌/◌, ◌%◌, ◌^◌, ◌&&◌, not, Bool, true, false, List, [], ◌∷◌, ◌==◌, if◌then◌else◌}

-- The letters that print_perms writes.
abbrev pub letter : Bool → ℕ → ℕ
letter b c = if b then c else 45

-- `st & S_IRUSR` and the other tests of one bit.
abbrev pub has_bit : ℕ → ℕ → Bool
has_bit st k = st / 2 ^ k % 2 == 1

-- `S_ISREG` and the other tests of the file type, with `st` itself in front.
abbrev pub is_type : ℕ → ℕ → Bool
is_type st t = not (st == 0) && (st / 2 ^ 12 % 16 == t)

-- print_perms: the ten characters.
unfoldable pub print_perms : ℕ → List ℕ
print_perms st =
    (if is_type st 8
      then 45
      else if is_type st 4
      then 100
      else if is_type st 1
      then 124
      else if is_type st 12
      then 115
      else if is_type st 2
      then 99
      else if is_type st 6
      then 98
      else 108)
    ∷ letter (has_bit st 8) 114
    ∷ letter (has_bit st 7) 119
    ∷ letter (has_bit st 6) 120
    ∷ letter (has_bit st 5) 114
    ∷ letter (has_bit st 4) 119
    ∷ letter (has_bit st 3) 120
    ∷ letter (has_bit st 2) 114
    ∷ letter (has_bit st 1) 119
    ∷ letter (has_bit st 0) 120
    ∷ []
