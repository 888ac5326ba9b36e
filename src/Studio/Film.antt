-- ===== src/Studio/Film.antt =====
-- A film from the script to the payments.
use cn.Base.{
  ℕ, ◌+◌, ◌≤◌, ◌≡◌, refl, ap, ap₂, sym, subst, true, Option, some, List, [], ◌∷◌, ◌++◌, ◌>>=◌, map,
  leb, length, take, drop, arith, length-append, append-nil, Returns, length-take, length-drop,
}
use cn.Base.Int.{ℤ, pos}
use cn.Unix.FdPass.{send_file_descriptor}
use cn.Unix.FdPass.Roundtrip.{recv_file_descriptor-sent}
use cn.Studio.{
  max_count, max_threads, script, read_numbers, read_order, Director, opening, direct, receive_all,
  pay,
}
use cn.Studio.Grants.{count, grants, Known, ports, ask_all-Granted, count_few}

read_numbers-append : (xs rest : List ℕ) → read_numbers (length xs) (xs ++ rest) ≡ some (xs, rest)
unfolding read_numbers
read_numbers-append [] rest = refl
read_numbers-append (x ∷ xs) rest = rw (read_numbers-append xs rest)

read_numbers-take :
    (n : ℕ) (xs rest : List ℕ)
    → n ≤ length xs
    → read_numbers n (take n xs ++ rest) ≡ some (take n xs, rest)
read_numbers-take n xs rest h =
    subst (λ k. read_numbers k (take n xs ++ rest) ≡ some (take n xs, rest)) (length-take n xs h)
      (read_numbers-append (take n xs) rest)

-- The director reads the list that was typed first as the actors, and the number of them is the one that
-- was typed as the number of sets; the two numbers, within the arrays of the director, are exchanged.
pub read_order-script :
    (actors sets : ℕ) (typed : List ℕ)
    → actors ≤ max_count
    → sets ≤ max_count
    → sets + actors ≤ length typed
    → read_order (script actors sets typed) ≡ some (take sets typed, take actors (drop sets typed))
unfolding read_order script
read_order-script actors sets typed a s h =
    let within : leb actors max_count ≡ true = ground arith in
    let within' : leb sets max_count ≡ true = ground arith in
    let last = append-nil (take actors (drop sets typed)) in
    rw (
      within,
      within',
      read_numbers-take sets typed (take actors (drop sets typed)) (omega arith),
      subst (λ ms. read_numbers actors ms ≡ some (take actors (drop sets typed), [])) last
          (read_numbers-take actors (drop sets typed) [] (omega (arith, length-drop sets typed))),
    )

receive_all-append :
    (ps more : List ℕ)
    → receive_all (length ps) (map (λ p. send_file_descriptor (pos p)) (ps ++ more))
      ≡ some (map pos ps, map (λ p. send_file_descriptor (pos p)) more)
unfolding receive_all
receive_all-append [] more = refl
receive_all-append (p ∷ ps) more =
    rw (receive_all-append ps more, recv_file_descriptor-sent (pos p))

map-append : (ps qs : List ℕ) → map pos (ps ++ qs) ≡ map pos ps ++ map pos qs
map-append [] qs = refl
map-append (p ∷ ps) qs = ap (◌∷◌ (pos p)) (map-append ps qs)

pay-contract :
    (sets actors : List ℕ)
    → length sets ≤ max_count
    → length actors ≤ max_count
    → pay (record {
      set_count = length sets;
      actor_count = length actors;
      descriptors = map (λ p. send_file_descriptor (pos p)) (sets ++ actors);
    })
      ≡ some (map pos (sets ++ actors))
unfolding pay
pay-contract sets actors s a =
    let within : leb (length sets) max_count ≡ true = ground arith in
    let within' : leb (length actors) max_count ≡ true = ground arith in
    let all = append-nil actors in
    rw (
      within,
      within',
      receive_all-append sets actors,
      subst
          (λ qs.
            receive_all (length actors) (map (λ p. send_file_descriptor (pos p)) qs)
            ≡ some (map pos actors, []))
          all (receive_all-append actors []),
      map-append sets actors,
    )

-- One film: the director's round, and the producer's.
abbrev pub film : Director → List ℕ → Option (Director × List ℤ)
film d messages = do (d', k) ← direct d messages; fds ← pay k; some (d', fds)

-- The payments of a film, after the ones of earlier films, and what the director and the processes keep.
pub record Paid (d : Director) (sets actors : List ℕ) (r : Director × List ℤ) : Type 0 where
  pub new_sets : List ℕ
  pub new_actors : List ℕ
  pub kept_sets : r.0.sets_accp ≡ d.sets_accp ++ new_sets
  pub kept_actors : r.0.actors_accp ≡ d.actors_accp ++ new_actors
  pub counted :
      (p : ℕ)
      → r.0.company p ≡ d.company p + count p (ports 9000 sets) + count p (ports 7000 actors)
  pub payments : r.1 ≡ map pos ((d.sets_accp ++ new_sets) ++ (d.actors_accp ++ new_actors))
  pub granted :
      (p : ℕ)
      → count p new_sets + count p new_actors + grants (d.company p)
        ≡ grants (d.company p + count p (ports 9000 sets) + count p (ports 7000 actors))

-- No process has more clients than threads.
abbrev pub Served : Director → List ℕ → List ℕ → Type 0
Served d sets actors =
    (p : ℕ) → d.company p + count p (ports 9000 sets) + count p (ports 7000 actors) ≤ max_threads

film_pays_lists :
    (d : Director) (messages sets actors : List ℕ)
    → read_order messages ≡ some (actors, sets)
    → Known sets
    → Known actors
    → length d.sets_accp + length sets ≤ max_count
    → length d.actors_accp + length actors ≤ max_count
    → Served d sets actors
    → Returns (Paid d sets actors) (film d messages)
unfolding direct
film_pays_lists d messages sets actors e known known' room room' served =
    let ((c, s), es, gs) =
      ask_all-Granted 9000 d.company d.sets_accp sets known room (λ p. omega (arith, served p)) in
    let ((c', a), ea, ga) =
      ask_all-Granted 7000 c d.actors_accp actors known' room'
        (λ p. omega (arith, served p, gs.counted p)) in
    let paid =
      pay-contract s a
        (subst (λ l. length l ≤ max_count) (sym gs.entered)
          (omega (arith, length-append d.sets_accp gs.new, gs.few)))
        (subst (λ l. length l ≤ max_count) (sym ga.entered)
          (omega (arith, length-append d.actors_accp ga.new, ga.few))) in
    rw (e, es, ea, paid)
      (
        (record { sets_accp = s; actors_accp = a; company = c' }, map pos (s ++ a)),
        refl,
        record {
          new_sets = gs.new;
          new_actors = ga.new;
          kept_sets = gs.entered;
          kept_actors = ga.entered;
          counted = λ p. omega (arith, gs.counted p, ga.counted p);
          payments = ap₂ (λ u v. map pos (u ++ v)) gs.entered ga.entered;
          granted = λ p.
              let later =
                subst (λ v. count p ga.new + grants v ≡ grants (v + count p (ports 7000 actors)))
                  (gs.counted p) (ga.granted p) in
              omega (arith, gs.granted p, later);
        },
      )

-- A film for which the director's arrays and the processes' threads have room, with indices that actor.c and
-- studio.c know, is paid: the producer pays the sets and actors that the director's arrays hold from earlier films
-- again, and those that gave their permission for this one, which are entered behind them in the same arrays. Each
-- process has counted its requests of this film, and has given its permission for its first and its third request
-- only.
pub film_pays :
    (d : Director) (actors sets : ℕ) (typed : List ℕ)
    → sets + actors ≤ length typed
    → Known (take sets typed)
    → Known (take actors (drop sets typed))
    → length d.sets_accp + actors ≤ max_count
    → length d.actors_accp + sets ≤ max_count
    → Served d (take actors (drop sets typed)) (take sets typed)
    → Returns
        (Paid d (take actors (drop sets typed)) (take sets typed))
        (film d (script actors sets typed))
film_pays d actors sets typed h known known' room room' served =
    film_pays_lists d (script actors sets typed) (take actors (drop sets typed)) (take sets typed)
      (read_order-script actors sets typed (omega arith) (omega arith) h) known' known
      (omega (arith, length-take actors (drop sets typed), length-drop sets typed))
      (omega (arith, length-take sets typed)) served

count-append : (p : ℕ) (xs ys : List ℕ) → count p (xs ++ ys) ≡ count p xs + count p ys
count-append p [] ys = omega arith
count-append p (x ∷ xs) ys = omega (arith, count-append p xs ys)

-- The first film pays the process on each port as often as it gave its permission, which is once for one
-- or two requests, and twice for more.
pub first_film_pays :
    (actors sets : ℕ) (typed : List ℕ)
    → sets + actors ≤ length typed
    → Known (take sets typed)
    → Known (take actors (drop sets typed))
    → actors ≤ max_count
    → sets ≤ max_count
    → Returns
        (λ (r : Director × List ℤ).
          (paid : List ℕ) × (r.1 ≡ map pos paid)
          × ((p : ℕ)
              → count p paid
                ≡ grants (
                    count p (ports 9000 (take actors (drop sets typed)))
                    + count p (ports 7000 (take sets typed)))))
        (film opening (script actors sets typed))
first_film_pays actors sets typed h known known' room room' =
    let (r, e, paid) =
      film_pays opening actors sets typed h known known' (omega arith) (omega arith)
        (λ p. omega (arith, few p)) in
    (r, e, (paid.new_sets ++ paid.new_actors, paid.payments, λ p. first p paid))
  where
    few :
        (p : ℕ)
        → count p (ports 9000 (take actors (drop sets typed)))
            + count p (ports 7000 (take sets typed))
          ≤ max_threads
    few p =
        count_few p (take actors (drop sets typed)) (take sets typed) known' known
          (omega (arith, length-take actors (drop sets typed), length-drop sets typed))
          (omega (arith, length-take sets typed))

    first :
        (p : ℕ) {r : Director × List ℤ}
        (paid : Paid opening (take actors (drop sets typed)) (take sets typed) r)
        → count p (paid.new_sets ++ paid.new_actors)
          ≡ grants (
              count p (ports 9000 (take actors (drop sets typed)))
              + count p (ports 7000 (take sets typed)))
    first p paid =
        let asked = count p (ports 9000 (take actors (drop sets typed))) in
        let sum : 0 + asked + count p (ports 7000 (take sets typed))
            ≡ asked + count p (ports 7000 (take sets typed)) =
          omega arith in
        omega (arith, count-append p paid.new_sets paid.new_actors, paid.granted p, ap grants sum)
