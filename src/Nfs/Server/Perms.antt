-- ===== src/Nfs/Server/Perms.antt =====
-- What print_perms tells about the mode.
use cn.Base.{
  ℕ, ◌+◌, ◌*◌, ◌/◌, ◌%◌, ◌^◌, ◌≡◌, refl, true, false, List, [], ◌∷◌, ◌==◌, arith, if◌then◌else◌,
  Bool-cases, inl, inr, drop,
}
use cn.Nfs.Server.{letter, has_bit, print_perms}

-- The number whose binary digits are the letters other than '-'.
abbrev pub read_letters : ℕ → List ℕ → ℕ
read_letters n [] = n
read_letters n (c ∷ s) = read_letters (n * 2 + (if c == 45 then 0 else 1)) s

one_bit : (b : ℕ) → (b % 2 == 1) ≡ true → 1 ≡ b % 2
one_bit b h = ground arith

no_bit : (b : ℕ) → (b % 2 == 1) ≡ false → 0 ≡ b % 2
no_bit b h = ground arith

letter-bit :
    (st k c : ℕ)
    → (c == 45) ≡ false
    → (if letter (has_bit st k) c == 45 then 0 else 1) ≡ st / 2 ^ k % 2
letter-bit st k c h = elim (Bool-cases (has_bit st k)) [
  | inl e ↦ rw (e, h) (one_bit (st / 2 ^ k) e)
  | inr e ↦ rw e (no_bit (st / 2 ^ k) e)
]

-- Of the ten characters that print_perms writes, the last nine show the nine permission bits of the
-- mode, from the highest to the lowest.
pub print_perms_shows_bits : (st : ℕ) → read_letters 0 (drop 1 (print_perms st)) ≡ st % 512
unfolding print_perms
print_perms_shows_bits st =
    rw
      (
        letter-bit st 8 114 refl,
        letter-bit st 7 119 refl,
        letter-bit st 6 120 refl,
        letter-bit st 5 114 refl,
        letter-bit st 4 119 refl,
        letter-bit st 3 120 refl,
        letter-bit st 2 114 refl,
        letter-bit st 1 119 refl,
        letter-bit st 0 120 refl,
      )
      (omega arith)
