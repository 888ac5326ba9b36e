-- ===== src/Nfs/Server/Descriptors.antt =====
-- Which descriptors the handlers leave open, and what they report, whatever the system replies.
use cn.Base.{
  ℕ, ◌≡◌, refl, true, ◌&&◌, not, Option, none, some, List, [], ◌∷◌, if◌then◌else◌, arith,
  Bool-cases, inl, inr,
}
use cn.Base.Int.{ℤ, pos, negsuc, is_negative, eqb_ℤ}
use cn.Nfs.Server.{is_type}
use cn.Nfs.Server.Handlers.{Call, Reply, Handler, done, overrun, calls, nfs_write, nfs_read}

abbrev pub opened : ℤ → List ℤ → List ℤ
opened (pos n) held = pos n ∷ held
opened (negsuc n) held = held

abbrev pub closed : ℤ → List ℤ → List ℤ
closed fd [] = []
closed fd (x ∷ held) = if eqb_ℤ fd x then held else x ∷ closed fd held

-- The open descriptors after a call with its reply.
abbrev pub after : Call → Reply → List ℤ → List ℤ
after (Call.open_write w) r held = opened r.value held
after (Call.open_read w) r held = opened r.value held
after (Call.creat w perm) r held = opened r.value held
after (Call.close fd) r held = closed fd held
after c r held = held

-- How a handler ends for the replies to its calls: its number or size, and what it leaves open.
abbrev pub finish : List ℤ → Handler → List Reply → Option (ℤ × List ℤ)
finish held (done v b) replies = some (v, held)
finish held overrun replies = none
finish held (calls c k) [] = none
finish held (calls c k) (r ∷ replies) = finish (after c r held) (k r) replies

closed-opened : (fd : ℤ) → closed fd (opened fd []) ≡ []
closed-opened (pos n) = let same : eqb_ℤ (pos n) (pos n) ≡ true = ground arith in rw same
closed-opened (negsuc n) = refl

-- A write to a file that is accessible and regular reports what `write` returned, even if the offset
-- could not be set, and any other one reports -1; the server's descriptor is always closed.
pub nfs_write_closes :
    (f buffer : List ℕ) (offset size : ℕ) (a s fd l w c : Reply) (more : List Reply)
    → finish [] (nfs_write f buffer offset size) (a ∷ s ∷ fd ∷ l ∷ w ∷ c ∷ more)
      ≡ some ((if not (is_negative a.value) && is_type s.mode 8 then w.value else negsuc 0), [])
unfolding nfs_write
nfs_write_closes f buffer offset size a s fd l w c more = elim (Bool-cases (is_negative a.value)) [
  | inl denied ↦ rw (nfs_write, finish, denied)
  | inr granted ↦ elim (Bool-cases (is_type s.mode 8)) [
    | inl regular ↦ rw (nfs_write, finish, granted, regular, closed-opened fd.value)
    | inr other ↦ rw (nfs_write, finish, granted, other)
  ]
]

-- A read does the same with what `read` returned, but if the offset cannot be set, it reports -1 and
-- leaves the descriptor open.
pub nfs_read_closes :
    (f : List ℕ) (offset size : ℕ) (a s fd l r c : Reply) (more : List Reply)
    → finish [] (nfs_read f offset size) (a ∷ s ∷ fd ∷ l ∷ r ∷ c ∷ more)
      ≡ some (
          if not (is_negative a.value) && is_type s.mode 8
          then (if is_negative l.value then (negsuc 0, opened fd.value []) else (r.value, []))
          else (negsuc 0, []))
unfolding nfs_read
nfs_read_closes f offset size a s fd l r c more = elim (Bool-cases (is_negative a.value)) [
  | inl denied ↦ rw (nfs_read, finish, denied)
  | inr granted ↦ elim (Bool-cases (is_type s.mode 8)) [
    | inl regular ↦ elim (Bool-cases (is_negative l.value)) [
      | inl no_offset ↦ rw (nfs_read, finish, granted, regular, no_offset)
      | inr set ↦ rw (nfs_read, finish, granted, regular, set, closed-opened fd.value)
    ]
    | inr other ↦ rw (nfs_read, finish, granted, other)
  ]
]
