-- ===== src/Pool/Turns.antt =====
-- Which servers the clients get.
use cn.Base.{
  ℕ, suc, ◌+◌, ◌<◌, ◌≡◌, refl, ap, ap₂, ◌∙◌, Bool, true, false, none, some, List, [], ◌∷◌, ◌++◌,
  ◌==◌, length, set, replicate, arith, ◌⊎◌, inl, inr,
}
use cn.Pool.{Pool, find_free, thread_write, thread_read}

abbrev pub AllTaken : List Bool → Type 0
AllTaken [] = Unit
AllTaken (taken ∷ status) = (taken ≡ true) × AllTaken status

-- A first free server, and the pool after it has been taken.
pub record Taken (p : Pool) (r : Pool × ℕ) : Type 0 where
  pub before : List Bool
  pub after : List Bool
  pub was_free : p.status ≡ before ++ false ∷ after
  pub is_taken : r.0.status ≡ before ++ true ∷ after
  pub earlier : AllTaken before
  pub told : r.1 ≡ length before

set-append :
    (before after : List Bool) (b c : Bool)
    → set (before ++ b ∷ after) (length before) c ≡ before ++ c ∷ after
set-append [] after b c = refl
set-append (x ∷ before) after b c = ap (◌∷◌ x) (set-append before after b c)

pub record Free (j : ℕ) (status : List Bool) (k : ℕ) : Type 0 where
  pub before : List Bool
  pub after : List Bool
  pub cells : status ≡ before ++ false ∷ after
  pub earlier : AllTaken before
  pub index : k ≡ j + length before

pub find_free-cases :
    (j : ℕ) (status : List Bool)
    → (AllTaken status × (find_free j status ≡ none))
      ⊎ ((k : ℕ) × (find_free j status ≡ some k) × Free j status k)
unfolding find_free
find_free-cases j [] = inl (tt, refl)
find_free-cases j (false ∷ status) =
    let here : j ≡ j + 0 = omega arith in
    inr (j, refl, record { before = []; after = status; cells = refl; earlier = tt; index = here })
find_free-cases j (true ∷ status) = elim (find_free-cases (j + 1) status) [
  | inl (all, e) ↦ inl ((refl, all), e)
  | inr (k, e, f) ↦ inr (
    k,
    e,
    record {
      before = true ∷ f.before;
      after = f.after;
      cells = ap (◌∷◌ true) f.cells;
      earlier = (refl, f.earlier);
      index = omega (arith, f.index);
    },
  )
]

-- A client is told the first server that is free, and just this one becomes taken. Only if all are taken,
-- it is told the server that the last client was told.
pub thread_write_takes :
    (p : Pool) → (AllTaken p.status × ((thread_write p).1 ≡ p.start)) ⊎ Taken p (thread_write p)
unfolding thread_write
thread_write_takes p = elim (find_free-cases 0 p.status) [
  | inl (all, e) ↦ inl (all, rw e refl)
  | inr (k, e, f) ↦
      let place : k ≡ length f.before = omega (arith, f.index) in
      inr (record {
        before = f.before;
        after = f.after;
        was_free = f.cells;
        is_taken =
            rw e (ap₂ (λ s i. set s i true) f.cells place ∙ set-append f.before f.after false true);
        earlier = f.earlier;
        told = rw e place;
      })
]

-- Whichever server a client gives back, server 0 becomes free: after two clients have got the servers 0
-- and 1 of a pool, and the second one has given its server back, the next client gets server 0, which the
-- first one still uses.
pub thread_read_frees_first :
    (more start number : ℕ)
    → 0 < number
    → let (p, first) =
        thread_write (record { status = replicate (suc (suc more)) false; start = start }) in
      let (q, second) = thread_write p in
      (first ≡ 0) × (second ≡ 1) × ((thread_write (thread_read q number)).1 ≡ 0)
unfolding thread_write thread_read find_free
thread_read_frees_first more start number h =
    let given_back : (number == 0) ≡ false = ground arith in rw given_back (refl, refl, refl)
