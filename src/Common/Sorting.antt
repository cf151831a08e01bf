-- ===== src/Common/Sorting.antt =====
-- A stable sort by a number, as `ORDER BY` of one column.
use Prim.Native.Nat.{ℕ, suc, ◌≤◌}
use mathlib.Core.Path.{◌≡◌, refl, sym, ap, ◌∙◌}
use mathlib.Core.Logic.{inl, inr}
use mathlib.Core.Bool.{Bool, true, false}
use mathlib.Core.List.{List, [], ◌∷◌}
use native.Mathlib.Omega.{arith}
use codesensei.Common.Tests.{leb, if◌then◌else◌, Bool-cases}
use codesensei.Common.Lists.{length, keep, All, All-map, All-keep}

module _ {A : Type 0} (key : A → ℕ) where
  unfoldable pub comes_first : A → A → Bool
  comes_first x y = leb (key x) (key y)

  abbrev pub insert : A → List A → List A
  insert x [] = x ∷ []
  insert x (y ∷ ys) = let rest = insert x ys in if comes_first x y then x ∷ y ∷ ys else y ∷ rest

  abbrev pub sort : List A → List A
  sort [] = []
  sort (x ∷ xs) = insert x (sort xs)

  abbrev pub IsSorted : List A → Type 0
  IsSorted [] = Unit
  IsSorted (x ∷ xs) = All (λ y. key x ≤ key y) xs × IsSorted xs

  first-le : (x y : A) → comes_first x y ≡ true → key x ≤ key y
  unfolding comes_first
  first-le x y h = ground arith

  pub le-first : (x y : A) → key x ≤ key y → comes_first x y ≡ true
  unfolding comes_first
  le-first x y h = ground arith

  later-le : (x y : A) → comes_first x y ≡ false → key y ≤ key x
  unfolding comes_first
  later-le x y h = ground arith

  insert-front : (x : A) (ys : List A) → All (λ y. key x ≤ key y) ys → insert x ys ≡ x ∷ ys
  insert-front x [] h = refl
  insert-front x (y ∷ ys) (h, hs) = rw (le-first x y h) refl

  pub All-insert : (P : A → Type 0) (x : A) (ys : List A) → P x → All P ys → All P (insert x ys)
  All-insert P x [] p h = (p, tt)
  All-insert P x (y ∷ ys) p (h, hs) = elim (Bool-cases (comes_first x y)) [
    | inl le ↦ rw le (p, (h, hs))
    | inr gt ↦ rw gt (h, All-insert P x ys p hs)
  ]

  insert-IsSorted : (x : A) (ys : List A) → IsSorted ys → IsSorted (insert x ys)
  insert-IsSorted x [] h = (tt, tt)
  insert-IsSorted x (y ∷ ys) (h, hs) = elim (Bool-cases (comes_first x y)) [
    | inl le ↦
        let front : key x ≤ key y = first-le x y le in
        rw le ((front, All-map ys (λ z p. omega (arith, p, front)) h), (h, hs))
    | inr gt ↦
        rw gt (All-insert (λ z. key y ≤ key z) x ys (later-le x y gt) h, insert-IsSorted x ys hs)
  ]

  pub sort-IsSorted : (xs : List A) → IsSorted (sort xs)
  sort-IsSorted [] = tt
  sort-IsSorted (x ∷ xs) = insert-IsSorted x (sort xs) (sort-IsSorted xs)

  pub All-sort : (P : A → Type 0) (xs : List A) → All P xs → All P (sort xs)
  All-sort P [] h = tt
  All-sort P (x ∷ xs) (h, hs) = All-insert P x (sort xs) h (All-sort P xs hs)

  length-insert : (x : A) (ys : List A) → length (insert x ys) ≡ suc (length ys)
  length-insert x [] = refl
  length-insert x (y ∷ ys) = elim (Bool-cases (comes_first x y)) [
    | inl le ↦ rw le refl
    | inr gt ↦ rw gt (ap suc (length-insert x ys))
  ]

  pub length-sort : (xs : List A) → length (sort xs) ≡ length xs
  length-sort [] = refl
  length-sort (x ∷ xs) = length-insert x (sort xs) ∙ ap suc (length-sort xs)

  insert_if : Bool → A → List A → List A
  insert_if b x ys = if b then insert x ys else ys

  keep-front :
      (p : A → Bool) (x : A) (ys : List A)
      → All (λ y. key x ≤ key y) ys
      → keep p (x ∷ ys) ≡ insert_if (p x) x (keep p ys)
  unfolding insert_if
  keep-front p x ys h = elim (Bool-cases (p x)) [
    | inl kept ↦ rw kept (sym (insert-front x (keep p ys) (All-keep (λ y. key x ≤ key y) p ys h)))
    | inr left ↦ rw left refl
  ]

  insert_if-behind :
      (x y : A) (ys : List A)
      → comes_first x y ≡ false
      → (b : Bool) → insert_if b x (y ∷ ys) ≡ y ∷ insert_if b x ys
  unfolding insert_if
  insert_if-behind x y ys gt true = rw gt refl
  insert_if-behind x y ys gt false = refl

  keep-behind :
      (p : A → Bool) (x y : A) (ys : List A)
      → comes_first x y ≡ false
      → keep p (insert x ys) ≡ insert_if (p x) x (keep p ys)
      → keep p (y ∷ insert x ys) ≡ insert_if (p x) x (keep p (y ∷ ys))
  unfolding insert_if
  keep-behind p x y ys gt ih = elim (Bool-cases (p y)) [
    | inr left ↦ rw left ih
    | inl kept ↦ rw kept (ap (λ zs. y ∷ zs) ih ∙ sym (insert_if-behind x y (keep p ys) gt (p x)))
  ]

  sort-if :
      (b : Bool) (x : A) (xs : List A) → insert_if b x (sort xs) ≡ sort (if b then x ∷ xs else xs)
  unfolding insert_if
  sort-if true x xs = refl
  sort-if false x xs = refl

  keep-insert :
      (p : A → Bool) (x : A) (ys : List A)
      → IsSorted ys
      → keep p (insert x ys) ≡ insert_if (p x) x (keep p ys)
  unfolding insert_if
  keep-insert p x [] h = elim (Bool-cases (p x)) [
    | inl kept ↦ rw kept refl
    | inr left ↦ rw left refl
  ]
  keep-insert p x (y ∷ ys) (h, hs) = elim (Bool-cases (comes_first x y)) [
    | inl le ↦
        let front : key x ≤ key y = first-le x y le in
        rw le (keep-front p x (y ∷ ys) (front, All-map ys (λ z q. omega (arith, q, front)) h))
    | inr gt ↦ rw gt (keep-behind p x y ys gt (keep-insert p x ys hs))
  ]

  pub keep-sort : (p : A → Bool) (xs : List A) → keep p (sort xs) ≡ sort (keep p xs)
  unfolding insert_if
  keep-sort p [] = refl
  keep-sort p (x ∷ xs) =
      keep-insert p x (sort xs) (sort-IsSorted xs)
      ∙ ap (insert_if (p x) x) (keep-sort p xs)
      ∙ sort-if (p x) x (keep p xs)

  pub sort-sorted : (xs : List A) → IsSorted xs → sort xs ≡ xs
  sort-sorted [] h = refl
  sort-sorted (x ∷ xs) (h, hs) = ap (insert x) (sort-sorted xs hs) ∙ insert-front x xs h

  pub length-keep-sort :
      (p : A → Bool) (xs : List A) → length (keep p (sort xs)) ≡ length (keep p xs)
  length-keep-sort p xs = ap length (keep-sort p xs) ∙ length-sort (keep p xs)
