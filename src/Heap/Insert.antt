-- ===== src/Heap/Insert.antt =====
-- `Insert` puts its element into the heap order, and its loop ends within the fuel.
use cn.Base.{
  ℕ, zero, suc, ◌+◌, ◌/◌, ◌≤◌, ◌<◌, ◌≡◌, ◌≢◌, refl, arith, ◌==◌, if◌then◌else◌, true, false, leb,
  none, Returns, Bool-cases, inl, inr,
}
use cn.Base.Int.{ℤ, ◌≤ℤ◌, eqb_ℤ, ltb_ℤ}
use cn.Heap.{capacity, Array, update, Heap, sentinel, sift_up, insert}
use cn.Heap.Order.{IsHeap, IsGuarded, IsValid, bit, count, count-update, count_push}

-- With the element in cell `now`, only the edge above that cell may be out of order.
record UpInv (h : Array) (n now : ℕ) (element : ℤ) : Type 0 where
  from : 1 ≤ now
  to : now ≤ n
  edges : (i : ℕ) → 2 ≤ i → i ≤ n → i ≢ now → (if i / 2 == now then element else h (i / 2)) ≤ℤ h i
  bridged : (i : ℕ) → 2 ≤ i → i ≤ n → i / 2 ≡ now → 2 ≤ now → h (now / 2) ≤ℤ h i
  bottom : h 0 ≡ sentinel
  above : (i : ℕ) → 1 ≤ i → i ≤ n → i ≢ now → sentinel ≤ℤ h i
  element_above : sentinel ≤ℤ element

-- What the loop leaves: a heap that has the element in the place of what stood in cell `now`.
abbrev Sifted : Array → ℕ → ℕ → ℤ → Array → Type 0
Sifted h n now element r =
    IsHeap r n
    × IsGuarded r n
    × ((x : ℤ) → count x r n + bit (eqb_ℤ x (h now)) ≡ count x h n + bit (eqb_ℤ x element))

-- The loop has not reached the root, because the sentinel is below every element.
up_inner :
    (h : Array) (n now : ℕ) (element : ℤ)
    → UpInv h n now element
    → ltb_ℤ element (h (now / 2)) ≡ true
    → 2 ≤ now
up_inner h n zero element v lower = absurd (omega (arith, v.from))
up_inner h n (suc zero) element v lower = ground (arith, v.bottom, v.element_above)
up_inner h n (suc (suc now)) element v lower = omega arith

up_step :
    (h : Array) (n now : ℕ) (element : ℤ)
    → UpInv h n now element
    → ltb_ℤ element (h (now / 2)) ≡ true
    → UpInv (update h now (h (now / 2))) n (now / 2) element
up_step h n now element v lower =
    let inner : 2 ≤ now = up_inner h n now element v lower in
    record {
      from = omega arith;
      to = omega (arith, v.to);
      edges = λ i p q r. ground (arith, v.edges i, v.bridged i);
      bridged = λ i p q r s. ground (arith, v.edges i, v.edges (now / 2));
      bottom = ground (arith, v.bottom);
      above = λ i p q r. ground (arith, v.above i, v.above (now / 2));
      element_above = v.element_above;
    }

sift_up_restores :
    (fuel : ℕ) (h : Array) (n now : ℕ) (element : ℤ)
    → now < fuel
    → UpInv h n now element
    → Returns (Sifted h n now element) (sift_up fuel h now element)
unfolding sift_up
sift_up_restores zero h n now element f v = absurd (omega arith)
sift_up_restores (suc fuel) h n now element f v = elim (Bool-cases (ltb_ℤ element (h (now / 2)))) [
  | inl lower ↦
      let p = now / 2 in
      let (r, e, (o, g, c)) =
        sift_up_restores fuel (update h now (h p)) n p element (omega arith)
          (up_step h n now element v lower) in
      rw lower (r, e, (o, g, λ x. ground (arith, c x, count-update x (h p) h now n v.from v.to)))
  | inr fits ↦ rw fits (
    update h now element,
    refl,
    (
      (λ i p q. ground (arith, v.edges i)),
      (ground (arith, v.bottom), λ i p q. ground (arith, v.above i)),
      λ x. count-update x element h now n v.from v.to,
    ),
  )
]

-- The heap that `Insert` leaves: valid, one larger, with the element and otherwise as before.
abbrev pub Inserted : Heap → ℤ → Heap → Type 0
Inserted q element r =
    IsValid r
    × (r.size ≡ q.size + 1)
    × ((x : ℤ) → count x r.cells r.size ≡ count x q.cells q.size + bit (eqb_ℤ x element))

-- With fuel for one round per cell, and a free cell in the array, `Insert` of an element that is not below the
-- sentinel returns, and leaves a valid heap of the old elements and the new one.
pub insert_correct :
    (fuel : ℕ) (q : Heap) (element : ℤ)
    → q.size + 1 < fuel
    → q.size + 1 < capacity
    → IsValid q
    → sentinel ≤ℤ element
    → Returns (Inserted q element) (insert fuel q element)
unfolding insert
insert_correct fuel q element f room v fits =
    let n = q.size + 1 in
    let grown = update q.cells n element in
    let start : UpInv grown n n element = record {
      from = omega arith;
      to = omega arith;
      edges = λ i p r s. ground (arith, v.ordered i);
      bridged = λ i p r s t. absurd (omega arith);
      bottom = ground (arith, v.guarded.0);
      above = λ i p r s. ground (arith, v.guarded.1 i);
      element_above = fits;
    } in
    let (r, e, (o, g, c)) = sift_up_restores fuel grown n n element f start in
    let free : leb capacity (q.size + 1) ≡ false = ground (arith, room) in
    rw (free, e)
      (
        record { cells = r; size = n },
        refl,
        (
          record { ordered = o; guarded = g; room = room },
          refl,
          λ x. ground (arith, c x, count_push x element q.cells q.size),
        ),
      )

sift_up_hangs :
    (fuel : ℕ) (h : Array) (now : ℕ) (element : ℤ)
    → ((i : ℕ) → i ≤ now / 2 → sentinel ≤ℤ h i)
    → ¬ (sentinel ≤ℤ element)
    → sift_up fuel h now element ≡ none
unfolding sift_up
sift_up_hangs zero h now element v low = refl
sift_up_hangs (suc fuel) h now element v low = elim (Bool-cases (ltb_ℤ element (h (now / 2)))) [
  | inl lower ↦ rw lower (
      sift_up_hangs fuel (update h now (h (now / 2))) (now / 2) element
        (λ i p. ground (arith, v i, v (now / 2))) low)
  | inr fits ↦ absurd (ground (arith, v (now / 2)))
]

-- An element below the sentinel, which `INT_MIN` is, makes the loop of `Insert` run for ever: in cell
-- 0 it compares the sentinel with the element again and again.
pub insert_hangs :
    (fuel : ℕ) (q : Heap) (element : ℤ)
    → IsValid q
    → ¬ (sentinel ≤ℤ element)
    → insert fuel q element ≡ none
unfolding insert
insert_hangs fuel q element v low =
    let n = q.size + 1 in
    let hangs = sift_up_hangs fuel (update q.cells n element) n element (λ i p. below i p) low in
    elim (Bool-cases (leb capacity n)) [
      | inl full ↦ rw full refl
      | inr free ↦ rw (free, hangs) refl
    ]
  where
    below : (i : ℕ) → i ≤ (q.size + 1) / 2 → sentinel ≤ℤ update q.cells (q.size + 1) element i
    below zero p = ground (arith, v.guarded.0)
    below (suc i) p = ground (arith, v.guarded.1 (suc i))
