-- ===== src/Registry/Entries.antt =====
-- What clients learn after services have registered.
use cn.Base.{
  ℕ, zero, suc, ◌+◌, ◌-◌, ◌≤◌, ◌<◌, ◌≡◌, refl, ap, ◌∙◌, true, false, Option, some, List, [], ◌∷◌,
  ◌++◌, ◌>>=◌, map, ltb, length, set, replicate, get_elem?, arith, append_assoc, append-nil,
  length-append,
}
use cn.Registry.{max_services, Service, Registry, server_init, register, answer, request}

abbrev pub register_all : Registry → List ℕ → Option Registry
register_all r [] = some r
register_all r (port ∷ ports) = register r port >>= λ r'. register_all r' ports

abbrev pub empty : Service
empty = record { port = 0; available = false }

abbrev pub entry : ℕ → Service
entry port = record { port = port; available = true }

-- The registry that holds these services.
abbrev pub holding : List ℕ → Registry
holding ports = record {
  services = map entry ports ++ replicate (max_services - length ports) empty;
  no_of_services = length ports;
}

set-append :
    (ports : List ℕ) (k : ℕ) (s : Service)
    → set (map entry ports ++ replicate (suc k) empty) (length ports) s
      ≡ map entry ports ++ s ∷ replicate k empty
set-append [] k s = refl
set-append (p ∷ ports) k s = ap (◌∷◌ (entry p)) (set-append ports k s)

map-append : (ps qs : List ℕ) → map entry (ps ++ qs) ≡ map entry ps ++ map entry qs
map-append [] qs = refl
map-append (p ∷ ps) qs = ap (◌∷◌ (entry p)) (map-append ps qs)

register-holding :
    (ports : List ℕ) (port : ℕ)
    → length ports < max_services
    → register (holding ports) port ≡ some (holding (ports ++ port ∷ []))
unfolding register
register-holding ports port h =
    let room : ltb (length ports) max_services ≡ true = ground arith in
    let free = max_services - (length ports + 1) in
    let left : max_services - length ports ≡ suc free = omega arith in
    rw (
      room,
      left,
      set-append ports free (entry port),
      length-append ports (port ∷ []),
      map-append ports (port ∷ []),
      append_assoc (map entry ports) (entry port ∷ []) (replicate free empty),
    )

register_all-holding :
    (before ports : List ℕ)
    → length before + length ports ≤ max_services
    → register_all (holding before) ports ≡ some (holding (before ++ ports))
register_all-holding before [] h = rw (append-nil before)
register_all-holding before (port ∷ ports) h = rw (register-holding before port (omega arith)) (
    register_all-holding (before ++ port ∷ []) ports
      (omega (arith, length-append before (port ∷ [])))
    ∙ rw (append_assoc before (port ∷ []) ports))

pub get_elem?-holding :
    (ports : List ℕ) (i k : ℕ)
    → i < length ports + k
    → (get_elem? (map entry ports ++ replicate k empty) i >>= λ s. some (answer s))
      ≡ some (get_elem? ports i)
get_elem?-holding [] i zero h = absurd (omega arith)
get_elem?-holding [] zero (suc k) h = refl
get_elem?-holding [] (suc i) (suc k) h = get_elem?-holding [] i k (omega arith)
get_elem?-holding (p ∷ ports) zero k h = refl
get_elem?-holding (p ∷ ports) (suc i) k h = get_elem?-holding ports i k (omega arith)

-- After up to five services have registered, a client that asks for one of the numbers 1 to 5 gets the
-- port of the service that registered at that place, and no port if there is none.
pub request-register_all :
    (ports : List ℕ) (i : ℕ)
    → length ports ≤ max_services
    → i < max_services
    → (register_all server_init ports >>= λ r. request r (suc i)) ≡ some (get_elem? ports i)
unfolding request
request-register_all ports i h k =
    rw (register_all-holding [] ports (omega arith))
      (get_elem?-holding ports i (max_services - length ports) (omega arith))
