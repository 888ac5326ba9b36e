-- ===== src/Printing/Bytes.antt =====
-- What a read takes from the file and leaves in the buffer.
use cn.Base.{
  ℕ, zero, suc, ◌+◌, ◌≡◌, refl, sym, ap, ◌∙◌, List, [], ◌∷◌, ◌++◌, take, drop, drop-nil, length,
  arith,
}

pub take-nil : (n : ℕ) → take {A = ℕ} n [] ≡ []
take-nil zero = refl
take-nil (suc n) = refl

pub take-plus :
    (n m : ℕ) (content : List ℕ)
    → take (n + m) content ≡ take n content ++ take m (drop (length (take n content)) content)
take-plus zero m content = let e : 0 + m ≡ m = omega arith in rw e refl
take-plus (suc n) m [] = rw (take-nil (suc n + m), take-nil m) refl
take-plus (suc n) m (c ∷ content) =
    let e : suc n + m ≡ suc (n + m) = omega arith in rw e (ap (◌∷◌ c) (take-plus n m content))

pub drop-plus :
    (k offset : ℕ) (content : List ℕ) → drop (offset + k) content ≡ drop k (drop offset content)
drop-plus k zero content = let e : 0 + k ≡ k = omega arith in rw e refl
drop-plus k (suc offset) [] = rw (drop-nil (suc offset + k), drop-nil k) refl
drop-plus k (suc offset) (c ∷ content) =
    let e : suc offset + k ≡ suc (offset + k) = omega arith in rw e (drop-plus k offset content)

-- A read of n bytes and a later one of m take what one of n + m bytes takes.
pub take-further :
    (n m offset : ℕ) (content : List ℕ)
    → take (n + m) (drop offset content)
      ≡ take n (drop offset content)
        ++ take m (drop (offset + length (take n (drop offset content))) content)
take-further n m offset content =
    take-plus n m (drop offset content)
    ∙ ap (λ xs. take n (drop offset content) ++ take m xs)
        (sym (drop-plus (length (take n (drop offset content))) offset content))
