-- ===== src/Pool.antt =====
-- select_servers/serviceserver/mainserver.c: a pool of servers, of which clients get free ones. The two
-- threads are functions on the state that they share; `true` is the status 1 of a server that is taken.
pub mod Turns
pub mod Interleaved
pub mod Client
mod Tests
use cn.Base.{
  ℕ, zero, suc, ◌+◌, Bool, true, false, Option, none, some, List, [], ◌∷◌, ◌++◌, ◌==◌, ◌≡◌, length,
  set, replicate, if◌then◌else◌, leb,
}

-- `status`, with `count` cells, and `start`.
pub record Pool : Type 0 where
  pub status : List Bool
  pub start : ℕ

-- The loop over j that looks for a server with status 0, from index j on.
unfoldable pub find_free : ℕ → List Bool → Option ℕ
find_free j [] = none
find_free j (taken ∷ status) =
    let later = find_free (j + 1) status in if taken then later else some j

abbrev pub or_start : Option ℕ → ℕ → ℕ
or_start none start = start
or_start (some j) start = j

-- The body of thread_write once `gotserver` is 1: the pool, and the server that the client is told.
unfoldable pub thread_write : Pool → Pool × ℕ
thread_write p =
    let start = or_start (find_free 0 p.status) p.start in
    (record { status = set p.status start true; start = start }, start)

-- The branch of thread_read for a message that is not "server", with the number that `atoi` reads in it:
-- `j` is the value of `atoi(buf)!=0`.
unfoldable pub thread_read : Pool → ℕ → Pool
thread_read p number =
    let j = (if number == 0 then 0 else 1) in
    if j == 0 then p else record p { status = set p.status 0 false }

-- Where thread_write is: before its test of `gotserver`, before its loop over j, or behind it.
pub data Place : Type 0 where
  waiting looking chosen : Place

-- What both threads share, where thread_write is, how often "server" was read, and the servers that clients
-- were told.
pub record Threads : Type 0 where
  pub pool : Pool
  pub gotserver : Bool
  pub place : Place
  pub asked : ℕ
  pub told : List ℕ

-- The cells of `status`, and of the arrays of descriptors.
abbrev pub max_servers : ℕ
max_servers = 10

-- `main`: the loop over i fills `status` and counts; both threads are created. There is no result for more servers than
-- cells.
unfoldable pub begin_threads : ℕ → Option Threads
begin_threads number =
    if leb number max_servers
    then some (record {
      pool = record { status = replicate number false; start = 0 };
      gotserver = false;
      place = waiting;
      asked = 0;
      told = [];
    })
    else none

-- The steps of the two threads, which are interleaved in any order. A message is handled by thread_read in one
-- step, and the loop over j is one step of thread_write.
pub data Step (w : Threads) : Threads → Type 0 where
  read_server : Step w (record w { gotserver = true; asked = w.asked + 1 })
  read_number : (number : ℕ) → Step w (record w { pool = thread_read w.pool number })
  notice :
      w.place ≡ waiting
      → w.gotserver ≡ true
      → Step w (record w { gotserver = false; place = looking })
  look :
      w.place ≡ looking
      → Step w (record w {
        pool = record w.pool { start = or_start (find_free 0 w.pool.status) w.pool.start };
        place = chosen;
      })
  tell :
      w.place ≡ chosen
      → Step w (record w {
        pool = record w.pool { status = set w.pool.status w.pool.start true };
        place = waiting;
        told = w.told ++ w.pool.start ∷ [];
      })

pub data Reach (number : ℕ) : Threads → Type 0 where
  start : {w : Threads} → begin_threads number ≡ some w → Reach number w
  later : {v w : Threads} → Reach number v → Step v w → Reach number w
