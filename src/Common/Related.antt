-- ===== src/Common/Related.antt =====
-- Lists whose elements are related to all later ones, and the elements of a list.
use Prim.Native.Nat.{ℕ, ◌≤◌}
use mathlib.Core.Path.{◌≡◌, refl, sym, subst}
use mathlib.Core.Logic.{◌⊎◌, inl, inr}
use mathlib.Core.List.{List, [], ◌∷◌, ◌++◌}
use codesensei.Common.Tests.{Bool-cases}
use codesensei.Common.Lists.{All, Any, All-map, All-append, All-zip}
use codesensei.Common.Sorting.{comes_first, insert, sort, IsSorted, All-insert, All-sort}

pub map_right {ℓ κ μ} : {A : Type ℓ} {B : Type κ} {C : Type μ} → (B → C) → A ⊎ B → A ⊎ C
map_right f (inl a) = inl a
map_right f (inr b) = inr (f b)

module _ {A : Type 0} where
  -- An element of the list.
  abbrev pub In : A → List A → Type 0
  In a = Any (λ x. x ≡ a)

  pub All-In : (xs : List A) → All (λ a. In a xs) xs
  All-In [] = tt
  All-In (x ∷ xs) = (inl refl, All-map xs (λ y. inr) (All-In xs))

  pub In-All : (P : A → Type 0) (a : A) (xs : List A) → All P xs → In a xs → P a
  In-All P a [] h k = elim k [ ]
  In-All P a (x ∷ xs) (h, hs) (inl e) = subst P e h
  In-All P a (x ∷ xs) (h, hs) (inr k) = In-All P a xs hs k

  abbrev pub Pairs : (A → A → Type 0) → List A → Type 0
  Pairs R [] = Unit
  Pairs R (x ∷ xs) = All (R x) xs × Pairs R xs

  All-without :
      (P : A → Type 0) (front : List A) (x : A) (xs : List A)
      → All P (front ++ (x ∷ xs))
      → All P (front ++ xs)
  All-without P [] x xs (h, hs) = hs
  All-without P (y ∷ front) x xs (h, hs) = (h, All-without P front x xs hs)

  pub Pairs-without :
      (R : A → A → Type 0) (front : List A) (x : A) (xs : List A)
      → Pairs R (front ++ (x ∷ xs))
      → Pairs R (front ++ xs)
  Pairs-without R [] x xs (h, hs) = hs
  Pairs-without R (y ∷ front) x xs (h, hs) =
      (All-without (R y) front x xs h, Pairs-without R front x xs hs)

  pub IsSorted-Pairs :
      (key : A → ℕ) (xs : List A) → IsSorted key xs → Pairs (λ x y. key x ≤ key y) xs
  IsSorted-Pairs key [] h = tt
  IsSorted-Pairs key (x ∷ xs) (h, hs) = (h, IsSorted-Pairs key xs hs)

  module _ (R : A → A → Type 0) (sym_R : (x y : A) → R x y → R y x) (key : A → ℕ) where
    Pairs-insert : (x : A) (ys : List A) → All (R x) ys → Pairs R ys → Pairs R (insert key x ys)
    Pairs-insert x [] h k = (tt, tt)
    Pairs-insert x (y ∷ ys) (h, hs) (k, ks) = elim (Bool-cases (comes_first key x y)) [
      | inl le ↦ rw le ((h, hs), (k, ks))
      | inr gt ↦ rw gt (All-insert key (R y) x ys (sym_R x y h) k, Pairs-insert x ys hs ks)
    ]

    pub Pairs-sort : (xs : List A) → Pairs R xs → Pairs R (sort key xs)
    Pairs-sort [] h = tt
    Pairs-sort (x ∷ xs) (h, hs) =
        Pairs-insert x (sort key xs) (All-sort key (R x) xs h) (Pairs-sort xs hs)

  pub Any-In : (P : A → Type 0) (a : A) (xs : List A) → P a → In a xs → Any P xs
  Any-In P a [] p k = k
  Any-In P a (x ∷ xs) p (inl e) = inl (subst P (sym e) p)
  Any-In P a (x ∷ xs) p (inr k) = inr (Any-In P a xs p k)

  pub Pairs-map :
      (P : A → Type 0) (R S : A → A → Type 0) (xs : List A)
      → ((x y : A) → P x → P y → R x y → S x y)
      → All P xs
      → Pairs R xs
      → Pairs S xs
  Pairs-map P R S [] f h k = tt
  Pairs-map P R S (x ∷ xs) f (h, hs) (k, ks) =
      (All-map xs (λ y r. f x y h r.0 r.1) (All-zip P (R x) xs hs k), Pairs-map P R S xs f hs ks)

  Any-insert_here :
      (key : A → ℕ) (P : A → Type 0) (x : A) (ys : List A) → P x → Any P (insert key x ys)
  Any-insert_here key P x [] p = inl p
  Any-insert_here key P x (y ∷ ys) p = elim (Bool-cases (comes_first key x y)) [
    | inl le ↦ rw le (inl p)
    | inr gt ↦ rw gt (inr (Any-insert_here key P x ys p))
  ]

  Any-insert :
      (key : A → ℕ) (P : A → Type 0) (x : A) (ys : List A) → Any P ys → Any P (insert key x ys)
  Any-insert key P x [] h = inr h
  Any-insert key P x (y ∷ ys) h = elim (Bool-cases (comes_first key x y)) [
    | inl le ↦ rw le (inr h)
    | inr gt ↦ rw gt (elim h [ inl p ↦ inl p | inr k ↦ inr (Any-insert key P x ys k) ])
  ]

  pub Any-sort : (key : A → ℕ) (P : A → Type 0) (xs : List A) → Any P xs → Any P (sort key xs)
  Any-sort key P [] h = h
  Any-sort key P (x ∷ xs) (inl p) = Any-insert_here key P x (sort key xs) p
  Any-sort key P (x ∷ xs) (inr h) = Any-insert key P x (sort key xs) (Any-sort key P xs h)

  pub Any-elim : {C : Type 0} (P : A → Type 0) (xs : List A) → ((x : A) → P x → C) → Any P xs → C
  Any-elim P [] f h = elim h [ ]
  Any-elim P (x ∷ xs) f (inl p) = f x p
  Any-elim P (x ∷ xs) f (inr h) = Any-elim P xs f h

  pub Pairs-snoc :
      (R : A → A → Type 0) (xs : List A) (y : A)
      → Pairs R xs
      → All (λ x. R x y) xs
      → Pairs R (xs ++ (y ∷ []))
  Pairs-snoc R [] y h k = (tt, tt)
  Pairs-snoc R (x ∷ xs) y (h, hs) (k, ks) =
      (All-append (R x) xs (y ∷ []) h (k, tt), Pairs-snoc R xs y hs ks)
