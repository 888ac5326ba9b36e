-- ===== src/Linked/Chain.antt =====
-- What the list in the memory holds.
use cn.Base.{
  ℕ, zero, suc, ◌+◌, ◌<◌, ◌≤◌, ◌≡◌, refl, ap, ◌∙◌, Option, none, some, List, [], ◌∷◌, ◌++◌,
  append-nil, append_assoc, map, get_elem?, get_elem?-inside, get_elem?-last, get_elem?-append,
  get_elem?-set, get_elem?-set_after, set, length, length-set, arith, subst,
}
use cn.Base.Int.{ℤ, pos, ◌+ℤ◌, +ℤ_assoc, +ℤ_from_zero, +ℤ_zero, add_int-fits, SumsFit}
use cn.Linked.{Node, Memory, empty, walk, mknode, mknodes, add_nodes, add_list_1_svc, list_1}

-- From `p` on, the numbers `xs` stand in nodes whose addresses ascend from `low` on, and nothing follows.
abbrev pub Holds : List Node → ℕ → Option ℕ → List ℤ → Type 0
Holds nodes low p [] = p ≡ none
Holds nodes low p (x ∷ xs) =
    (a : ℕ) × (node : Node) × (p ≡ some a)
    × (low ≤ a)
    × (get_elem? nodes a ≡ some node)
    × (node.x ≡ x)
    × Holds nodes (suc a) node.next xs

abbrev new_node : ℤ → ℤ → Node
new_node x y = record { x = x; y = y; next = none }

-- The last node, `temp`, is followed by a new one.
abbrev linked : List Node → ℕ → Node → ℤ → ℤ → List Node
linked nodes temp node x y =
    set nodes temp (record node { next = some (length nodes) }) ++ new_node x y ∷ []

linked-before :
    (nodes : List Node) (temp i : ℕ) (node : Node) (x y : ℤ)
    → i < temp
    → i < length nodes
    → get_elem? (linked nodes temp node x y) i ≡ get_elem? nodes i
linked-before nodes temp i node x y h inside =
    let v = record node { next = some (length nodes) } in
    get_elem?-append (set nodes temp v) (new_node x y ∷ []) i
      (omega (arith, length-set nodes temp v))
    ∙ get_elem?-set_after nodes i temp v h

linked-at :
    (nodes : List Node) (temp : ℕ) (node : Node) (x y : ℤ)
    → temp < length nodes
    → get_elem? (linked nodes temp node x y) temp
      ≡ some (record node { next = some (length nodes) })
linked-at nodes temp node x y inside =
    let v = record node { next = some (length nodes) } in
    get_elem?-append (set nodes temp v) (new_node x y ∷ []) temp
      (omega (arith, length-set nodes temp v))
    ∙ get_elem?-set nodes temp v inside

linked-new :
    (nodes : List Node) (temp : ℕ) (node : Node) (x y : ℤ)
    → get_elem? (linked nodes temp node x y) (length nodes) ≡ some (new_node x y)
linked-new nodes temp node x y =
    let v = record node { next = some (length nodes) } in
    subst (λ n. get_elem? (linked nodes temp node x y) n ≡ some (new_node x y))
      (length-set nodes temp v) (get_elem?-last (set nodes temp v) (new_node x y))

-- The walk from a node of the list comes to the last one, and after the change the list is one number longer.
walk-Holds :
    (nodes : List Node) (fuel a : ℕ) (node : Node) (xs : List ℤ) (x y : ℤ)
    → length nodes ≤ fuel + a
    → get_elem? nodes a ≡ some node
    → Holds nodes (suc a) node.next xs
    → (temp : ℕ) × (last node' : Node) × (walk fuel nodes a ≡ some temp)
      × (a ≤ temp)
      × (get_elem? nodes temp ≡ some last)
      × (get_elem? (linked nodes temp last x y) a ≡ some node')
      × (node'.x ≡ node.x)
      × Holds (linked nodes temp last x y) (suc a) node'.next (xs ++ x ∷ [])
unfolding walk
walk-Holds nodes zero a node xs x y h at holds =
    absurd (omega (arith, get_elem?-inside nodes a node at))
walk-Holds nodes (suc fuel) a node [] x y h at holds =
    let inside = get_elem?-inside nodes a node at in
    (
      a,
      node,
      record node { next = some (length nodes) },
      rw (at, holds) refl,
      omega arith,
      at,
      linked-at nodes a node x y inside,
      refl,
      (length nodes, new_node x y, refl, inside, linked-new nodes a node x y, refl, refl),
    )
walk-Holds nodes (suc fuel) a node (x₁ ∷ xs) x y h at (b, node₁, next, above, at₁, holds_x, rest) =
    let (temp, last, node', walked, after, at_last, at', same, holds) =
      walk-Holds nodes fuel b node₁ xs x y (omega arith) at₁ rest in
    (
      temp,
      last,
      node,
      rw (at, next) walked,
      omega arith,
      at_last,
      linked-before nodes temp a last x y (omega arith) (get_elem?-inside nodes a node at) ∙ at,
      refl,
      (b, node', next, above, at', same ∙ holds_x, holds),
    )

mknode-Holds :
    (m : Memory) (xs : List ℤ) (x y : ℤ)
    → Holds m.nodes 0 m.head xs
    → (m' : Memory) × (mknode m x y ≡ some m') × Holds m'.nodes 0 m'.head (xs ++ x ∷ [])
unfolding mknode
mknode-Holds m [] x y none_yet =
    let m' : Memory = record {
      nodes = m.nodes ++ new_node x y ∷ [];
      head = some (length m.nodes);
    } in
    (
      m',
      rw none_yet refl,
      (
        length m.nodes,
        new_node x y,
        refl,
        omega arith,
        get_elem?-last m.nodes (new_node x y),
        refl,
        refl,
      ),
    )
mknode-Holds m (x₁ ∷ xs) x y (a, node, head, above, at, holds_x, rest) =
    let (temp, last, node', walked, after, at_last, at', same, holds) =
      walk-Holds m.nodes (length m.nodes) a node xs x y (omega arith) at rest in
    (
      record m { nodes = linked m.nodes temp last x y },
      rw (head, walked, at_last) refl,
      (a, node', head, above, at', same ∙ holds_x, holds),
    )

abbrev pub first : ℤ × ℤ → ℤ
first p = p.0

mknodes-Holds :
    (m : Memory) (ys : List ℤ) (xs : List (ℤ × ℤ))
    → Holds m.nodes 0 m.head ys
    → (m' : Memory) × (mknodes m xs ≡ some m') × Holds m'.nodes 0 m'.head (ys ++ map first xs)
unfolding mknodes
mknodes-Holds m ys [] holds = (m, refl, rw (append-nil ys) holds)
mknodes-Holds m ys ((x, y) ∷ xs) holds =
    let (m₁, made, holds₁) = mknode-Holds m ys x y holds in
    let (m₂, all, holds₂) = mknodes-Holds m₁ (ys ++ x ∷ []) xs holds₁ in
    (
      m₂,
      rw made all,
      subst (Holds m₂.nodes 0 m₂.head) (append_assoc ys (x ∷ []) (map first xs)) holds₂,
    )

abbrev pub sum : List ℤ → ℤ
sum [] = pos 0
sum (x ∷ xs) = x +ℤ sum xs

add_nodes-Holds :
    (nodes : List Node) (fuel low : ℕ) (p : Option ℕ) (xs : List ℤ) (result : ℤ)
    → length nodes ≤ fuel + low
    → Holds nodes low p xs
    → SumsFit result xs
    → add_nodes fuel nodes p result ≡ some (result +ℤ sum xs, xs)
unfolding add_nodes
add_nodes-Holds nodes fuel low p [] result h holds fits = rw (holds, +ℤ_zero result) refl
add_nodes-Holds nodes zero low p (x ∷ xs) result h (a, node, here, above, at, holds_x, rest) fits =
    absurd (omega (arith, get_elem?-inside nodes a node at))
add_nodes-Holds nodes (suc fuel) low p (x ∷ xs) result h (a, node, here, above, at, holds_x, rest)
      (fit, fits) =
    rw
      (
        here,
        at,
        holds_x,
        add_int-fits result x fit,
        add_nodes-Holds nodes fuel (suc a) node.next xs (result +ℤ x) (omega arith) rest fits,
        +ℤ_assoc result x (sum xs),
      )
      refl

-- The server answers with the sum of the numbers in the order in which the client has added them, and prints them,
-- if there are any, no sum of the first ones is out of the range of an `int`, and the generated code takes a list of
-- numbers to the server as a list of the same numbers; `mknode` always finds the end of the list.
pub list_1-sum :
    (transfer : Memory → Memory) (x : ℤ × ℤ) (xs : List (ℤ × ℤ))
    → ((m : Memory) (ys : List ℤ)
        → Holds m.nodes 0 m.head ys
        → Holds (transfer m).nodes 0 (transfer m).head ys)
    → SumsFit (pos 0) (map first (x ∷ xs))
    → list_1 transfer (x ∷ xs) ≡ some (sum (map first (x ∷ xs)), map first (x ∷ xs))
unfolding list_1 add_list_1_svc
list_1-sum transfer x xs same fits =
    let ys = map first (x ∷ xs) in
    let (m, made, holds) = mknodes-Holds empty [] (x ∷ xs) refl in
    let m' = transfer m in
    let added =
      add_nodes-Holds m'.nodes (length m'.nodes) 0 m'.head ys (pos 0) (omega arith)
        (same m ys holds) fits in
    rw made (added ∙ ap (λ s. some (s, ys)) (+ℤ_from_zero (sum ys)))
