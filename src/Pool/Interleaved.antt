-- ===== src/Pool/Interleaved.antt =====
-- What holds in every interleaving of the two threads.
use cn.Base.{
  ℕ, zero, suc, ◌+◌, ◌≤◌, ◌<◌, ◌≡◌, refl, sym, ap, subst, ◌∙◌, Bool, true, false, leb, some, ◌||◌,
  List, [], ◌∷◌, ◌++◌, ◌==◌, length, set, get_or, replicate, arith, inl, inr, length-set,
  get_or-set, length-replicate, length-append, Bool-cases,
}
use cn.Base.Int.{bit}
use cn.Pool.{
  max_servers, Pool, find_free, or_start, thread_read, Place, waiting, looking, chosen, Threads,
  begin_threads, Step, Reach,
}
use cn.Pool.Turns.{find_free-cases}

-- Whether a client was told this server.
unfoldable pub was_told : ℕ → List ℕ → Bool
was_told j [] = false
was_told j (k ∷ told) = (k == j) || was_told j told

-- A request that thread_write has noticed and not yet answered.
abbrev pub in_work : Place → ℕ
in_work waiting = 0
in_work looking = 1
in_work chosen = 1

pub record Safe (number : ℕ) (w : Threads) : Type 0 where
  pub size : length w.pool.status ≡ number
  pub inside : w.pool.start < number
  pub answers : length w.told + in_work w.place + bit w.gotserver ≤ w.asked
  pub taken : (j : ℕ) → 0 < j → get_or w.pool.status j false ≡ was_told j w.told

get_or-replicate : (n j : ℕ) → get_or (replicate n false) j false ≡ false
get_or-replicate zero j = refl
get_or-replicate (suc n) zero = refl
get_or-replicate (suc n) (suc j) = get_or-replicate n j

begin_threads-Safe :
    (number : ℕ) (w : Threads) → 0 < number → begin_threads number ≡ some w → Safe number w
unfolding begin_threads was_told
begin_threads-Safe number w h e = elim (Bool-cases (leb number max_servers)) [
  | inl room ↦
      let made = rw room at e in
      subst (Safe number) (at_start made) (record {
        size = length-replicate number false;
        inside = h;
        answers = omega arith;
        taken = λ j hj. get_or-replicate number j;
      })
  | inr full ↦ let nothing = rw full at e in cc
]
  where
    at_start : {v w : Threads} → some v ≡ some w → v ≡ w
    at_start e = cc

set-first : (xs : List Bool) (j : ℕ) → 0 < j → get_or (set xs 0 false) j false ≡ get_or xs j false
set-first [] j h = refl
set-first (x ∷ xs) zero h = absurd (omega arith)
set-first (x ∷ xs) (suc j) h = refl

-- The number that is given back is not looked at: only server 0 becomes free.
thread_read-others :
    (p : Pool) (number j : ℕ)
    → 0 < j
    → get_or (thread_read p number).status j false ≡ get_or p.status j false
unfolding thread_read
thread_read-others p number j h = elim (Bool-cases (number == 0)) [
  | inl none_back ↦ rw none_back refl
  | inr back ↦ rw back (set-first p.status j h)
]

length-thread_read :
    (p : Pool) (number : ℕ) → length (thread_read p number).status ≡ length p.status
unfolding thread_read
length-thread_read p number = elim (Bool-cases (number == 0)) [
  | inl none_back ↦ rw none_back refl
  | inr back ↦ rw back (length-set p.status 0 false)
]

start-thread_read : (p : Pool) (number : ℕ) → (thread_read p number).start ≡ p.start
unfolding thread_read
start-thread_read p number = elim (Bool-cases (number == 0)) [
  | inl none_back ↦ rw none_back refl
  | inr back ↦ rw back refl
]

find_free-inside :
    (p : Pool) (number : ℕ)
    → length p.status ≡ number
    → p.start < number
    → or_start (find_free 0 p.status) p.start < number
find_free-inside p number size h = elim (find_free-cases 0 p.status) [
  | inl (all, e) ↦ rw e h
  | inr (k, e, f) ↦
      rw e
        (omega (arith, f.index, size, ap length f.cells, length-append f.before (false ∷ f.after)))
]

or_false : (a : Bool) → (a || false) ≡ a
or_false true = refl
or_false false = refl

or_true : (a : Bool) → (a || true) ≡ true
or_true true = refl
or_true false = refl

or_assoc : (a b c : Bool) → (a || (b || c)) ≡ ((a || b) || c)
or_assoc true b c = refl
or_assoc false b c = refl

was_told-append :
    (j k : ℕ) (told : List ℕ) → was_told j (told ++ k ∷ []) ≡ (was_told j told || (k == j))
unfolding was_told
was_told-append j k [] = or_false (k == j)
was_told-append j k (i ∷ told) =
    rw (was_told-append j k told) (or_assoc (i == j) (was_told j told) (k == j))

step-Safe : {number : ℕ} {v w : Threads} → Safe number v → Step v w → Safe number w
step-Safe {number} {v} s Step.read_server = record {
  size = s.size;
  inside = s.inside;
  answers = omega (arith, s.answers);
  taken = s.taken;
}
step-Safe {number} {v} s (Step.read_number n) = record {
  size = length-thread_read v.pool n ∙ s.size;
  inside = subst (λ k. k < number) (sym (start-thread_read v.pool n)) s.inside;
  answers = s.answers;
  taken = λ j h. thread_read-others v.pool n j h ∙ s.taken j h;
}
step-Safe {number} {v} s (Step.notice at got) = record {
  size = s.size;
  inside = s.inside;
  answers = omega (arith, s.answers, ap in_work at, ap bit got);
  taken = s.taken;
}
step-Safe {number} {v} s (Step.look at) = record {
  size = s.size;
  inside = find_free-inside v.pool number s.size s.inside;
  answers = omega (arith, s.answers, ap in_work at);
  taken = s.taken;
}
step-Safe {number} {v} s (Step.tell at) = record {
  size = length-set v.pool.status v.pool.start true ∙ s.size;
  inside = s.inside;
  answers = omega (arith, s.answers, ap in_work at, length-append v.told (v.pool.start ∷ []));
  taken = λ j h.
      get_or-set v.pool.status v.pool.start j true false (omega (arith, s.inside, s.size))
      ∙ elim (Bool-cases (v.pool.start == j)) [
        | inl here ↦
            rw here
              (sym (was_told-append j v.pool.start v.told ∙ rw here (or_true (was_told j v.told))))
        | inr other ↦ rw other (
            s.taken j h
            ∙ sym (was_told-append j v.pool.start v.told ∙ rw other (or_false (was_told j v.told))))
      ];
}

-- For one server to ten, however the two threads are interleaved, `start` is the index of a server, no more clients are told a server
-- than have asked for one, and a server other than 0 is taken if and only if some client was ever told it:
-- what clients give back never frees it.
pub Reach-Safe : {number : ℕ} {w : Threads} → 0 < number → Reach number w → Safe number w
Reach-Safe {number} {w} h (Reach.start e) = begin_threads-Safe number w h e
Reach-Safe h (Reach.later r s) = step-Safe (Reach-Safe h r) s
