-- ===== src/Nfs/Server/Tests.antt =====
-- The mode of a regular file with the permissions 0644, a write, a read, and a directory.
use cn.Base.{ℕ, ◌+◌, ◌*◌, ◌^◌, ◌≡◌, refl, none, some, replicate, List, [], ◌∷◌}
use cn.Base.Int.{ℤ}
use cn.Nfs.Text.{text}
use cn.Nfs.Server.{print_perms}
use cn.Nfs.Server.Handlers.{Reply, list_names}
use cn.Nfs.Server.Listing.{Listing, list_names_lists}

regular_file : print_perms (8 * 2 ^ 12 + 420) ≡ text "-rw-r--r--"
unfolding print_perms
regular_file = refl

abbrev reply : ℤ → Reply
reply v = record { value = v; mode = 33188; content = text "hi"; names = [] }

abbrev names : List (List ℕ)
names = text "." ∷ text "b" ∷ text ".c" ∷ text "d" ∷ []

list_names_lists_example : Listing names (list_names 0 [] names)
list_names_lists_example =
    list_names_lists names ((refl, tt), ((refl, tt), ((refl, (refl, tt)), ((refl, tt), tt))))

two_names : list_names 0 [] names ≡ some (2, 98 ∷ 10 ∷ 100 ∷ 10 ∷ [])
unfolding list_names
two_names = refl

-- A name of 1023 characters leaves no room for its newline.
long_name : list_names 0 [] (replicate 1023 97 ∷ []) ≡ none
unfolding list_names
long_name = refl
