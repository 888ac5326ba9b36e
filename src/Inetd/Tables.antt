-- ===== src/Inetd/Tables.antt =====
-- What the operations on a table of descriptors do to it.
use std.Path.{fun_ext}
use cn.Base.{
  ℕ, ◌+◌, ◌≡◌, refl, sym, Bool, true, false, ◌||◌, Option, none, some, List, [], ◌∷◌, ◌==◌,
  if◌then◌else◌, arith, Bool-cases, inl, inr,
}
use cn.Inetd.{
  File, listener, connection, Table, assign, close, dup2, Client, open_sockets, close_all, accept,
}

abbrev pub is_in : ℕ → List ℕ → Bool
is_in x [] = false
is_in x (y ∷ ys) = x == y || is_in x ys

abbrev pub is_unused : Option File → Bool
is_unused none = true
is_unused (some f) = false

pub unused-none : (o : Option File) → is_unused o ≡ true → o ≡ none
unused-none none h = refl
unused-none (some f) h = ground (arith, h)

pub none_anyway : (b : Bool) → ◌≡◌ {A = Option File} (if b then none else none) none
none_anyway true = refl
none_anyway false = refl

pub close_all-lookup :
    (sfd : List ℕ) (t : Table) (x : ℕ) → close_all sfd t x ≡ (if is_in x sfd then none else t x)
unfolding close_all close
close_all-lookup [] t x = refl
close_all-lookup (fd ∷ sfd) t x = elim (Bool-cases (x == fd)) [
  | inl e ↦ rw (close_all-lookup sfd (close fd t) x, e) (none_anyway (is_in x sfd))
  | inr n ↦ rw (close_all-lookup sfd (close fd t) x, n) refl
]

pub unassigned :
    (s fd : ℕ) (f : File) (t : Table)
    → is_unused (assign s (some f) t fd) ≡ true
    → (fd == s ≡ false) × (is_unused (t fd) ≡ true)
unassigned s fd f t = by_test (fd == s)
  where
    by_test :
        (b : Bool)
        → is_unused (if b then some f else t fd) ≡ true
        → (b ≡ false) × (is_unused (t fd) ≡ true)
    by_test true h = ground (arith, h)
    by_test false h = (refl, h)

-- A descriptor that is not in use once the sockets are there was not in use before, and is none of theirs.
pub open_sockets-unused :
    (i : ℕ) (sfd : List ℕ) (t : Table) (fd : ℕ)
    → is_unused (open_sockets i sfd t fd) ≡ true
    → (is_in fd sfd ≡ false) × (is_unused (t fd) ≡ true)
unfolding open_sockets
open_sockets-unused i [] t fd h = (refl, h)
open_sockets-unused i (s ∷ sfd) t fd h =
    let (others, before) = open_sockets-unused (i + 1) sfd (assign s (some (listener i)) t) fd h in
    let (other, free) = unassigned s fd (listener i) t before in (rw other others, free)

pub dup2-open :
    (from to : ℕ) (t : Table) (f : File) → t from ≡ some f → dup2 from to t ≡ assign to (some f) t
unfolding dup2
dup2-open from to t f h = rw h refl

pub assign-same : (x y : ℕ) (t : Table) (f : File) → t x ≡ some f → assign y (some f) t x ≡ some f
assign-same x y t f h = elim (Bool-cases (x == y)) [ inl e ↦ rw e refl | inr n ↦ rw n h ]

-- The parent has its table back when it has closed the descriptor.
pub close-accept :
    (c : Client) (t : Table) → is_unused (t c.nfd) ≡ true → close c.nfd (accept c t) ≡ t
unfolding close accept
close-accept c t h = fun_ext back
  where
    back : (x : ℕ) → assign c.nfd none (assign c.nfd (some (connection c.number)) t) x ≡ t x
    back x = elim (Bool-cases (x == c.nfd)) [
      | inl e ↦
          let here : x ≡ c.nfd = ground (arith, e) in rw (e, here) (sym (unused-none (t c.nfd) h))
      | inr n ↦ rw n refl
    ]
