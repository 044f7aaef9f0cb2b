-- ===== src/Base/Slices.antt =====
-- Byte ranges of a file: what a read at a position delivers, and what a write in range leaves.
use Prim.Native.Nat.{ℕ, zero, suc, ◌+◌, ◌≤◌, ◌<◌}
use mathlib.Core.Path.{◌≡◌, refl, ap, ◌∙◌}
use mathlib.Core.List.{List, [], ◌∷◌, ◌++◌}
use native.Mathlib.Omega.{arith}
use hdfmonkey.Base.Lists.{get_or, length, take, drop, length-take, take-append-drop}

-- The `n` items from position `p` on, or as many as there are.
unfoldable pub slice {ℓ} : {A : Type ℓ} → ℕ → ℕ → List A → List A
slice zero n xs = take n xs
slice (suc p) n [] = []
slice (suc p) n (x ∷ xs) = slice p n xs

-- `bs` over the beginning of `xs`; the length stays.
unfoldable pub overlay {ℓ} : {A : Type ℓ} → List A → List A → List A
overlay [] xs = xs
overlay (b ∷ bs) [] = []
overlay (b ∷ bs) (x ∷ xs) = b ∷ overlay bs xs

-- `bs` over `xs` from position `p` on.
unfoldable pub splice {ℓ} : {A : Type ℓ} → ℕ → List A → List A → List A
unfolding overlay
splice zero bs xs = overlay bs xs
splice (suc p) bs [] = []
splice (suc p) bs (x ∷ xs) = x ∷ splice p bs xs

module _ {ℓ} {A : Type ℓ} where
  pub length-slice : (p n : ℕ) (xs : List A) → p + n ≤ length xs → length (slice p n xs) ≡ n
  unfolding slice
  length-slice zero zero xs h = refl
  length-slice zero (suc n) [] h = absurd (omega arith)
  length-slice zero (suc n) (x ∷ xs) h = omega (arith, length-slice zero n xs (omega arith))
  length-slice (suc p) n [] h = absurd (omega arith)
  length-slice (suc p) n (x ∷ xs) h = length-slice p n xs (omega arith)

  length-overlay : (bs xs : List A) → length (overlay bs xs) ≡ length xs
  unfolding overlay
  length-overlay [] xs = refl
  length-overlay (b ∷ bs) [] = refl
  length-overlay (b ∷ bs) (x ∷ xs) = ap suc (length-overlay bs xs)

  pub length-splice : (p : ℕ) (bs xs : List A) → length (splice p bs xs) ≡ length xs
  unfolding splice
  length-splice zero bs xs = length-overlay bs xs
  length-splice (suc p) bs [] = refl
  length-splice (suc p) bs (x ∷ xs) = ap suc (length-splice p bs xs)

  take_split : (n m k : ℕ) (xs : List A) → k ≡ n + m → take k xs ≡ take n xs ++ slice n m xs
  unfolding slice
  take_split zero m k xs e = let e' : k ≡ m = omega arith in rw e'
  take_split (suc n) m zero xs e = absurd (omega arith)
  take_split (suc n) m (suc k) [] e = refl
  take_split (suc n) m (suc k) (x ∷ xs) e = ap (λ t. x ∷ t) (take_split n m k xs (omega arith))

  -- Two reads in a row are one.
  pub slice_split :
      (p n m k q : ℕ) (xs : List A)
      → k ≡ n + m
      → q ≡ p + n
      → slice p k xs ≡ slice p n xs ++ slice q m xs
  unfolding slice
  slice_split zero n m k q xs e e' = let f : q ≡ n = omega arith in rw f (take_split n m k xs e)
  slice_split (suc p) n m k zero xs e e' = absurd (omega arith)
  slice_split (suc p) n m k (suc q) [] e e' = refl
  slice_split (suc p) n m k (suc q) (x ∷ xs) e e' = slice_split p n m k q xs e (omega arith)

  -- Reading the whole.
  pub slice_all : (n : ℕ) (xs : List A) → n ≡ length xs → slice 0 n xs ≡ xs
  unfolding slice
  slice_all zero [] e = refl
  slice_all zero (x ∷ xs) e = absurd (omega arith)
  slice_all (suc n) [] e = refl
  slice_all (suc n) (x ∷ xs) e = ap (λ t. x ∷ t) (slice_all n xs (omega arith))

  pub slice-zero : (p : ℕ) (xs : List A) → slice p 0 xs ≡ []
  unfolding slice
  slice-zero zero xs = refl
  slice-zero (suc p) [] = refl
  slice-zero (suc p) (x ∷ xs) = slice-zero p xs

  overlay_split :
      (q : ℕ) (bs cs xs : List A)
      → q ≡ length bs
      → splice q cs (overlay bs xs) ≡ overlay (bs ++ cs) xs
  unfolding splice
  overlay_split zero [] cs xs e = refl
  overlay_split zero (b ∷ bs) cs xs e = absurd (omega arith)
  overlay_split (suc q) [] cs xs e = absurd (omega arith)
  overlay_split (suc q) (b ∷ bs) cs [] e = refl
  overlay_split (suc q) (b ∷ bs) cs (x ∷ xs) e =
      ap (λ t. b ∷ t) (overlay_split q bs cs xs (omega arith))

  -- Two writes in a row are one.
  pub splice_split :
      (p q : ℕ) (bs cs xs : List A)
      → q ≡ p + length bs
      → splice q cs (splice p bs xs) ≡ splice p (bs ++ cs) xs
  unfolding splice
  splice_split zero q bs cs xs e = overlay_split q bs cs xs (omega arith)
  splice_split (suc p) zero bs cs xs e = absurd (omega arith)
  splice_split (suc p) (suc q) bs cs [] e = refl
  splice_split (suc p) (suc q) bs cs (x ∷ xs) e =
      ap (λ t. x ∷ t) (splice_split p q bs cs xs (omega arith))

  pub splice-nil : (p : ℕ) (xs : List A) → splice p [] xs ≡ xs
  unfolding splice
  splice-nil zero xs = refl
  splice-nil (suc p) [] = refl
  splice-nil (suc p) (x ∷ xs) = ap (λ t. x ∷ t) (splice-nil p xs)

  -- What was written is read back.
  pub slice-splice_self :
      (p n : ℕ) (bs xs : List A)
      → n ≡ length bs
      → p + n ≤ length xs
      → slice p n (splice p bs xs) ≡ bs
  unfolding slice splice
  slice-splice_self zero zero [] xs e h = refl
  slice-splice_self zero zero (b ∷ bs) xs e h = absurd (omega arith)
  slice-splice_self zero (suc n) [] xs e h = absurd (omega arith)
  slice-splice_self zero (suc n) (b ∷ bs) [] e h = absurd (omega arith)
  slice-splice_self zero (suc n) (b ∷ bs) (x ∷ xs) e h =
      ap (λ t. b ∷ t) (slice-splice_self zero n bs xs (omega arith) (omega arith))
  slice-splice_self (suc p) n bs [] e h = absurd (omega arith)
  slice-splice_self (suc p) n bs (x ∷ xs) e h = slice-splice_self p n bs xs e (omega arith)

  -- A read of a range below or above what was written is not affected.
  pub slice-splice_before :
      (p n q : ℕ) (bs xs : List A) → p + n ≤ q → slice p n (splice q bs xs) ≡ slice p n xs
  unfolding slice splice
  slice-splice_before zero zero q bs xs h = refl
  slice-splice_before zero (suc n) zero bs xs h = absurd (omega arith)
  slice-splice_before zero (suc n) (suc q) bs [] h = refl
  slice-splice_before zero (suc n) (suc q) bs (x ∷ xs) h =
      ap (λ t. x ∷ t) (slice-splice_before zero n q bs xs (omega arith))
  slice-splice_before (suc p) n zero bs xs h = absurd (omega arith)
  slice-splice_before (suc p) n (suc q) bs [] h = refl
  slice-splice_before (suc p) n (suc q) bs (x ∷ xs) h =
      slice-splice_before p n q bs xs (omega arith)

  slice-overlay_after :
      (p n : ℕ) (bs xs : List A) → length bs ≤ p → slice p n (overlay bs xs) ≡ slice p n xs
  unfolding slice overlay
  slice-overlay_after p n [] xs h = refl
  slice-overlay_after p n (b ∷ bs) [] h = refl
  slice-overlay_after zero n (b ∷ bs) (x ∷ xs) h = absurd (omega arith)
  slice-overlay_after (suc p) n (b ∷ bs) (x ∷ xs) h = slice-overlay_after p n bs xs (omega arith)

  pub slice-splice_after :
      (p n q : ℕ) (bs xs : List A) → q + length bs ≤ p → slice p n (splice q bs xs) ≡ slice p n xs
  unfolding slice splice
  slice-splice_after p n zero bs xs h = slice-overlay_after p n bs xs (omega arith)
  slice-splice_after zero n (suc q) bs xs h = absurd (omega arith)
  slice-splice_after (suc p) n (suc q) bs [] h = refl
  slice-splice_after (suc p) n (suc q) bs (x ∷ xs) h = slice-splice_after p n q bs xs (omega arith)

  -- A write in two parts.
  pub splice_parts :
      (p n : ℕ) (bs bytes : List A)
      → n ≤ length bs
      → splice (p + n) (drop n bs) (splice p (take n bs) bytes) ≡ splice p bs bytes
  splice_parts p n bs bytes h =
      splice_split p (p + n) (take n bs) (drop n bs) bytes (omega (arith, length-take n bs h))
      ∙ ap (λ t. splice p t bytes) (take-append-drop n bs)

  -- A write over the front of a longer list.
  pub splice-append :
      (bs xs ys : List A) → length bs ≡ length xs → splice 0 bs (xs ++ ys) ≡ bs ++ ys
  unfolding splice
  splice-append [] [] ys e = refl
  splice-append [] (x ∷ xs) ys e = absurd (omega arith)
  splice-append (b ∷ bs) [] ys e = absurd (omega arith)
  splice-append (b ∷ bs) (x ∷ xs) ys e = ap (λ t. b ∷ t) (splice-append bs xs ys (omega arith))

  -- A read inside the front of a longer list, and inside the part behind it.
  pub slice-append_front :
      (n : ℕ) (xs ys : List A) → n ≤ length xs → slice 0 n (xs ++ ys) ≡ slice 0 n xs
  unfolding slice
  slice-append_front zero xs ys h = refl
  slice-append_front (suc n) [] ys h = absurd (omega arith)
  slice-append_front (suc n) (x ∷ xs) ys h =
      ap (λ t. x ∷ t) (slice-append_front n xs ys (omega arith))

  pub slice-append_back :
      (p q n : ℕ) (xs ys : List A) → p ≡ length xs + q → slice p n (xs ++ ys) ≡ slice q n ys
  unfolding slice
  slice-append_back p q n [] ys e = let e' : p ≡ q = omega arith in rw e'
  slice-append_back zero q n (x ∷ xs) ys e = absurd (omega arith)
  slice-append_back (suc p) q n (x ∷ xs) ys e = slice-append_back p q n xs ys (omega arith)

-- A byte of a slice.
pub get_or-slice :
    (p n k : ℕ) (xs : List ℕ) → k < n → get_or (slice p n xs) k 0 ≡ get_or xs (p + k) 0
unfolding slice
get_or-slice zero zero k xs h = absurd (omega arith)
get_or-slice zero (suc n) k [] h = refl
get_or-slice zero (suc n) zero (x ∷ xs) h = refl
get_or-slice zero (suc n) (suc k) (x ∷ xs) h =
    let next : suc (0 + k) ≡ 0 + suc k = omega arith in
    get_or-slice zero n k xs (omega arith) ∙ ap (λ i. get_or (x ∷ xs) i 0) next
get_or-slice (suc p) n k [] h = refl
get_or-slice (suc p) n k (x ∷ xs) h =
    let next : suc (p + k) ≡ suc p + k = omega arith in
    get_or-slice p n k xs h ∙ ap (λ i. get_or (x ∷ xs) i 0) next
