-- ===== src/Heap/DeleteMin.antt =====
-- `DeleteMin` takes a least element away, and its loop ends within the fuel.
use cn.Base.{
  ℕ, zero, suc, ◌+◌, ◌-◌, ◌*◌, ◌/◌, ◌≤◌, ◌<◌, ◌≡◌, ◌≢◌, refl, false, arith, ◌==◌, true, Returns,
  Bool-cases, inl, inr, leb, ◌⊎◌, ◌||◌,
}
use cn.Base.Int.{ℤ, ◌≤ℤ◌, eqb_ℤ, ltb_ℤ}
use cn.Heap.{capacity, Array, update, Heap, sentinel, smaller_child, sift_down, delete_min}
use cn.Heap.Order.{IsHeap, IsGuarded, IsValid, bit, count, count-update, root_least}

-- With the last element in cell `now`, only the edges below that cell may be out of order.
record DownInv (h : Array) (n now : ℕ) (last : ℤ) : Type 0 where
  from : 1 ≤ now
  to : now ≤ n
  edges : (i : ℕ) → 2 ≤ i → i ≤ n → i ≢ now → i / 2 ≢ now → h (i / 2) ≤ℤ h i
  over : 2 ≤ now → h (now / 2) ≤ℤ last
  bridged : (i : ℕ) → 2 ≤ i → i ≤ n → i / 2 ≡ now → 2 ≤ now → h (now / 2) ≤ℤ h i
  bottom : h 0 ≡ sentinel
  above : (i : ℕ) → 1 ≤ i → i ≤ n → i ≢ now → sentinel ≤ℤ h i
  last_above : sentinel ≤ℤ last

abbrev Sifted : Array → ℕ → ℕ → ℤ → Array → Type 0
Sifted h n now last r =
    IsHeap r n
    × IsGuarded r n
    × ((x : ℤ) → count x r n + bit (eqb_ℤ x (h now)) ≡ count x h n + bit (eqb_ℤ x last))

record IsSmallerChild (h : Array) (n now m : ℕ) : Type 0 where
  inside : m ≤ n
  child : (m ≡ now * 2) ⊎ (m ≡ now * 2 + 1)
  least : (i : ℕ) → 2 ≤ i → i ≤ n → i / 2 ≡ now → h m ≤ℤ h i

smaller_child-IsSmallerChild :
    (h : Array) (n now : ℕ) → 1 ≤ now → now * 2 ≤ n → IsSmallerChild h n now (smaller_child h n now)
unfolding smaller_child
smaller_child-IsSmallerChild h n now p fits = record {
  inside = ground arith;
  child = ground arith;
  least = λ i a b c. elim (two i a c) [
    | inl e ↦ rw e (ground arith)
    | inr e ↦ rw e (ground (arith, b, e))
  ];
}
  where
    two : (i : ℕ) → 2 ≤ i → i / 2 ≡ now → (i ≡ now * 2) ⊎ (i ≡ now * 2 + 1)
    two i a c = omega arith

down_step :
    (h : Array) (n now m : ℕ) (last : ℤ)
    → DownInv h n now last
    → IsSmallerChild h n now m
    → ltb_ℤ (h m) last ≡ true
    → DownInv (update h now (h m)) n m last
down_step h n now m last v c lower = record {
  from = omega (arith, c.child, v.from);
  to = c.inside;
  edges = λ i p q r s. ground (arith, v.edges i, v.bridged m, c.least i, v.from, c.child, c.inside);
  over = λ p. ground (arith, c.child, v.from);
  bridged = λ i p q r s. ground (arith, v.edges i, c.child, v.from);
  bottom = ground (arith, v.bottom, v.from);
  above = λ i p q r. ground (arith, v.above i, v.above m, c.child, c.inside, v.from);
  last_above = v.last_above;
}

-- The last element fits into cell `now`.
down_fits :
    (h : Array) (n now : ℕ) (last : ℤ)
    → DownInv h n now last
    → ((i : ℕ) → 2 ≤ i → i ≤ n → i / 2 ≡ now → last ≤ℤ h i)
    → Sifted h n now last (update h now last)
down_fits h n now last v least = (
  (λ i p q. ground (arith, v.edges i, v.over, least i)),
  (ground (arith, v.bottom, v.from), λ i p q. ground (arith, v.above i, v.last_above)),
  λ x. count-update x last h now n v.from v.to,
)

sift_down_restores :
    (fuel : ℕ) (h : Array) (n now : ℕ) (last : ℤ)
    → n < now + fuel
    → DownInv h n now last
    → Returns (Sifted h n now last) (sift_down fuel h n now last)
unfolding sift_down
sift_down_restores zero h n now last f v = absurd (omega (arith, v.to))
sift_down_restores (suc fuel) h n now last f v = elim (Bool-cases (leb (now * 2) n)) [
  | inl more ↦
      let m = smaller_child h n now in
      let c = smaller_child-IsSmallerChild h n now v.from (ground arith) in
      elim (Bool-cases (ltb_ℤ (h m) last)) [
        | inl lower ↦
            let (r, e, (o, g, k)) =
              sift_down_restores fuel (update h now (h m)) n m last (omega (arith, c.child, v.from))
                (down_step h n now m last v c lower) in
            rw (more, lower)
              (
                r,
                e,
                (
                  o,
                  g,
                  λ x.
                      ground
                        (arith, k x, count-update x (h m) h now n v.from v.to, c.child, v.from),
                ),
              )
        | inr fits ↦
            rw (more, fits)
              (
                update h now last,
                refl,
                down_fits h n now last v λ i p q s. ground (arith, c.least i),
              )
      ]
  | inr leaf ↦
      rw leaf (update h now last, refl, down_fits h n now last v λ i p q s. absurd (ground arith))
]

-- The call that `DeleteMin` makes of the loop.
sift_root :
    (fuel : ℕ) (h : Array) (n : ℕ)
    → n < fuel
    → IsHeap h (suc n)
    → IsGuarded h (suc n)
    → Returns
        (λ r.
          IsHeap r n
          × IsGuarded r n
          × ((x : ℤ) → count x h (suc n) ≡ count x r n + bit (eqb_ℤ x (h 1))))
        (sift_down fuel h n 1 (h (suc n)))
unfolding count
sift_root fuel h (suc n) f o g =
    let start : DownInv h (suc n) 1 (h (suc (suc n))) = record {
      from = omega arith;
      to = omega arith;
      edges = λ i p q r s. o i p (omega arith);
      over = λ p. absurd (omega arith);
      bridged = λ i p q r s. absurd (omega arith);
      bottom = g.0;
      above = λ i p q r. g.1 i p (omega arith);
      last_above = g.1 (suc (suc n)) (omega arith) (omega arith);
    } in
    let (r, e, (ordered, guarded, k)) =
      sift_down_restores fuel h (suc n) 1 (h (suc (suc n))) (omega arith) start in
    (r, e, (ordered, guarded, λ x. omega (arith, k x)))
sift_root zero h zero f o g = absurd (omega arith)
sift_root (suc fuel) h zero f o g = (
  update h 1 (h 1),
  unfold sift_down in refl,
  ((λ i p q. absurd (omega arith)), (g.0, λ i p q. absurd (omega arith)), λ x. refl),
)

-- What `DeleteMin` leaves: a least element taken away, and a valid heap of the others.
abbrev pub Removed : Heap → ℤ × Heap → Type 0
Removed q (m, r) =
    IsValid r
    × (q.size ≡ r.size + 1)
    × ((i : ℕ) → 1 ≤ i → i ≤ q.size → m ≤ℤ q.cells i)
    × ((x : ℤ) → count x q.cells q.size ≡ count x r.cells r.size + bit (eqb_ℤ x m))

delete_min_sized :
    (fuel : ℕ) (h : Array) (s : ℕ)
    → s < fuel
    → IsValid (record { cells = h; size = s })
    → 1 ≤ s
    → Returns
        (Removed (record { cells = h; size = s }))
        (delete_min fuel (record { cells = h; size = s }))
unfolding delete_min
delete_min_sized fuel h zero f v p = absurd (omega arith)
delete_min_sized fuel h (suc n) f v p =
    let (r, e, (o, g, k)) = sift_root fuel h n (omega arith) v.ordered v.guarded in
    let less : suc n - 1 ≡ n = omega arith in
    let full : (suc n == 0 || leb capacity (suc n)) ≡ false = ground (arith, v.room) in
    rw (full, less, e)
      (
        (h 1, record { cells = r; size = n }),
        refl,
        (
          record { ordered = o; guarded = g; room = omega (arith, v.room) },
          omega arith,
          (λ i a b. root_least h (suc n) i v.ordered a b),
          k,
        ),
      )

-- On a valid heap that is not empty, with fuel for one round per cell, `DeleteMin` returns a least
-- element, and leaves a valid heap of exactly the other elements.
pub delete_min_correct :
    (fuel : ℕ) (q : Heap)
    → q.size < fuel
    → IsValid q
    → 1 ≤ q.size
    → Returns (Removed q) (delete_min fuel q)
delete_min_correct fuel q f v p = delete_min_sized fuel q.cells q.size f v p
