-- ===== src/Nfs/Server/Listing.antt =====
-- What the buffer of nfs_ls holds.
use cn.Base.{
  ℕ, suc, ◌+◌, ◌<◌, ◌≤◌, ◌≡◌, refl, ap, ap₂, sym, subst, ◌∙◌, true, false, Option, none, some, List,
  [], ◌∷◌, ◌++◌, ◌==◌, ltb, length, length-append, if◌then◌else◌, arith, append-nil, append_assoc,
  Bool-cases, inl, inr,
}
use cn.Nfs.Server.Handlers.{is_hidden, list_names}

-- The names that are not hidden.
abbrev pub visible : List (List ℕ) → List (List ℕ)
visible [] = []
visible (name ∷ names) = let rest = visible names in if is_hidden name then rest else name ∷ rest

abbrev pub extend : ℕ → List (List ℕ) → List (List ℕ)
extend c [] = (c ∷ []) ∷ []
extend c (l ∷ ls) = (c ∷ l) ∷ ls

-- The lines of a text.
abbrev pub lines : List ℕ → List (List ℕ)
lines [] = []
lines (c ∷ s) = if c == 10 then [] ∷ lines s else extend c (lines s)

abbrev pub OneLine : List ℕ → Type 0
OneLine [] = Unit
OneLine (c ∷ s) = ((c == 10) ≡ false) × OneLine s

abbrev pub AllOneLine : List (List ℕ) → Type 0
AllOneLine [] = Unit
AllOneLine (w ∷ ws) = OneLine w × AllOneLine ws

abbrev pub unlines : List (List ℕ) → List ℕ
unlines [] = []
unlines (w ∷ ws) = w ++ 10 ∷ unlines ws

lines-append : (w s : List ℕ) → OneLine w → lines (w ++ 10 ∷ s) ≡ w ∷ lines s
lines-append [] s h = refl
lines-append (c ∷ w) s (e, h) = rw (e, lines-append w s h)

lines-unlines : (ws : List (List ℕ)) → AllOneLine ws → lines (unlines ws) ≡ ws
lines-unlines [] h = refl
lines-unlines (w ∷ ws) (h, hs) = rw (lines-append w (unlines ws) h, lines-unlines ws hs)

visible-AllOneLine : (names : List (List ℕ)) → AllOneLine names → AllOneLine (visible names)
visible-AllOneLine [] h = tt
visible-AllOneLine (name ∷ names) (h, hs) = elim (Bool-cases (is_hidden name)) [
  | inl hidden ↦ rw hidden (visible-AllOneLine names hs)
  | inr shown ↦ rw shown (h, visible-AllOneLine names hs)
]

-- The loop's result, if it comes to this size and this text.
abbrev if_room : ℕ → List ℕ → Option (ℕ × List ℕ)
if_room size buffer = if ltb (length buffer) 1024 then some (size, buffer) else none

list_names-visible :
    (size : ℕ) (buffer : List ℕ) (names : List (List ℕ))
    → length buffer < 1024
    → list_names size buffer names
      ≡ if_room (size + length (visible names)) (buffer ++ unlines (visible names))
unfolding list_names
list_names-visible size buffer [] h =
    let same : size + 0 ≡ size = omega arith in
    let room : ltb (length buffer) 1024 ≡ true = ground arith in
    rw (append-nil buffer, same, room) refl
list_names-visible size buffer (name ∷ names) h = elim (Bool-cases (is_hidden name)) [
  | inl hidden ↦ rw hidden (list_names-visible size buffer names h)
  | inr shown ↦
      let next = buffer ++ (name ++ 10 ∷ []) in
      let rest = unlines (visible names) in
      let text : next ++ rest ≡ buffer ++ (name ++ 10 ∷ rest) =
        append_assoc buffer (name ++ 10 ∷ []) rest
        ∙ ap (λ t. buffer ++ t) (append_assoc name (10 ∷ []) rest) in
      let count : size + 1 + length (visible names) ≡ size + suc (length (visible names)) =
        omega arith in
      rw shown (elim (Bool-cases (ltb (length next) 1024)) [
        | inl room ↦ rw room (
            list_names-visible (size + 1) next names (ground (arith, room))
            ∙ ap₂ if_room count text)
        | inr full ↦
            let behind : ltb (length (buffer ++ (name ++ 10 ∷ rest))) 1024 ≡ false =
              subst (λ t. ltb (length t) 1024 ≡ false) text
                (ground (arith, full, length-append next rest)) in
            rw (full, behind) refl
      ])
]

-- What a listing is: the lines of the buffer are the names that are not hidden, in the order of the directory, and
-- the size is their number; or they and their newlines do not fit the buffer.
abbrev pub Listing : List (List ℕ) → Option (ℕ × List ℕ) → Type 0
Listing names none = 1024 ≤ length (unlines (visible names))
Listing names (some (size, buffer)) =
    (length buffer < 1024) × (lines buffer ≡ visible names) × (size ≡ length (visible names))

-- For names without newlines: if the names that are not hidden fit the 1024 bytes of the buffer, each with its
-- newline and with the 0 at the end, the lines of the buffer are these names, in the order of the directory, and the
-- size is their number; otherwise nfs_ls writes behind the buffer.
pub list_names_lists :
    (names : List (List ℕ)) → AllOneLine names → Listing names (list_names 0 [] names)
list_names_lists names h =
    let text = unlines (visible names) in
    subst (Listing names) (sym (list_names-visible 0 [] names (omega arith)))
      (elim (Bool-cases (ltb (length text) 1024)) [
        | inl room ↦ rw room (
          ground (arith, room),
          lines-unlines (visible names) (visible-AllOneLine names h),
          omega arith,
        )
        | inr full ↦ rw full (ground (arith, full))
      ])
