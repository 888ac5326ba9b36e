-- ===== src/Linked.antt =====
-- list.x, list_client.c and list_server.c: a client that builds a linked list and a server that adds up its numbers.
pub mod Chain
mod Tests
use cn.Base.{ℕ, zero, suc, Option, none, some, List, [], ◌∷◌, ◌++◌, get_elem?, set, length, ◌>>=◌}
use cn.Base.Int.{ℤ, pos, add_int}

-- `next` is the address of a node or `NULL`.
pub record Node : Type 0 where
  pub x : ℤ
  pub y : ℤ
  pub next : Option ℕ

-- The nodes that `malloc` has returned, by their addresses, and the variable `head`. `malloc` does not fail.
pub record Memory : Type 0 where
  pub nodes : List Node
  pub head : Option ℕ

abbrev pub empty : Memory
empty = record { nodes = []; head = none }

-- `while( temp->next!=NULL ) temp = temp->next;`
unfoldable pub walk : ℕ → List Node → ℕ → Option ℕ
walk zero nodes temp = none
walk (suc fuel) nodes temp = do
  node ← get_elem? nodes temp
  elim node.next [ none ↦ some temp | some next ↦ walk fuel nodes next ]

-- The new node after the last one; `y` is what stands in its cell, which is never written.
abbrev pub append_after : Memory → ℕ → ℤ → ℤ → Option Memory
append_after m temp x y = do
  node ← get_elem? m.nodes temp
  some (record m {
    nodes =
        set m.nodes temp (record node { next = some (length m.nodes) })
        ++ record { x = x; y = y; next = none } ∷ [];
  })

-- The walk has as much fuel as there are nodes.
unfoldable pub mknode : Memory → ℤ → ℤ → Option Memory
unfolding walk
mknode m x y = elim m.head [
  | none ↦ some (record {
    nodes = m.nodes ++ record { x = x; y = y; next = none } ∷ [];
    head = some (length m.nodes);
  })
  | some head ↦ walk (length m.nodes) m.nodes head >>= λ temp. append_after m temp x y
]

-- The numbers that are added one after the other, each with the cell of its `y`.
unfoldable pub mknodes : Memory → List (ℤ × ℤ) → Option Memory
unfolding mknode
mknodes m [] = some m
mknodes m ((x, y) ∷ xs) = mknode m x y >>= λ m'. mknodes m' xs

-- The loop of `add_list_1_svc`: `result`, and the numbers it prints. A sum that is no `int`
-- leaves no result.
unfoldable pub add_nodes : ℕ → List Node → Option ℕ → ℤ → Option (ℤ × List ℤ)
add_nodes fuel nodes none result = some (result, [])
add_nodes zero nodes (some temp) result = none
add_nodes (suc fuel) nodes (some temp) result = do
  node ← get_elem? nodes temp
  sum ← add_int result node.x
  r ← add_nodes fuel nodes node.next sum
  some (r.0, node.x ∷ r.1)

-- `result` is static, and set to 0 by every call.
unfoldable pub add_list_1_svc : Memory → Option (ℤ × List ℤ)
unfolding add_nodes
add_list_1_svc m = add_nodes (length m.nodes) m.nodes m.head (pos 0)

-- `list_1`, after `argp` has come to the server, as the generated code takes it there. For no number at all,
-- `head` is NULL, which that code would read through.
unfoldable pub list_1 : (Memory → Memory) → List (ℤ × ℤ) → Option (ℤ × List ℤ)
unfolding mknodes add_list_1_svc
list_1 transfer [] = none
list_1 transfer (x ∷ xs) = mknodes empty (x ∷ xs) >>= λ m. add_list_1_svc (transfer m)
