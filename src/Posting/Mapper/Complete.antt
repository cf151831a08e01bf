-- ===== src/Posting/Mapper/Complete.antt =====
-- What a payload holds of a review's findings.
use codesensei.Common.{
  ℕ, zero, suc, ◌≤◌, Bool, true, false, not, ◌&&◌, List, [], ◌∷◌, ◌++◌, Text, ◌≡◌, refl,
  if◌then◌else◌, is_empty, keep, map, take, drop, join_lines, All, All-map, Any, Any-append_right,
  ◌⊎◌, inl, inr, length, arith, length-map, length-take,
}
use codesensei.Review.Schema.{Finding}
use codesensei.Posting.Mapper.{
  Comment, Payload, inline_comment_cap, has_location, build_inline_comment, render_bullet,
  top_parts, compose_top_body, build_payload, section, append_section, at_least_one,
}

-- The value is one of the list's.
abbrev pub In : {A : Type 0} → A → List A → Type 0
In a xs = Any (λ x. x ≡ a) xs

-- GitHub takes a comment that names a file and a line of it, counted from 1.
abbrev pub HasPosition : Comment → Type 0
HasPosition c = (is_empty c.path ≡ false) × (at_least_one c.line ≡ true)

-- The finding is an inline comment, or one of the lines of the body.
abbrev pub IsShown : Payload → List Text → Finding → Type 0
IsShown p lines f =
    In (build_inline_comment f) p.comments
    ⊎ In (render_bullet true f) lines
    ⊎ In (render_bullet false f) lines

abbrev pub IsComplete : List Finding → Payload → Type 0
IsComplete findings p =
    (length p.comments ≤ 50)
    × All HasPosition p.comments
    × ((lines : List Text) × (p.body ≡ join_lines lines) × All (IsShown p lines) findings)

module _ {A : Type 0} (P : A → Type 0) where
  -- The rest of `keep`, with the head where the test holds.
  All-cons_if :
      (b : Bool) (x : A) (xs : List A)
      → (b ≡ true → P x)
      → All P xs
      → All P (if b then x ∷ xs else xs)
  All-cons_if true x xs h k = (h refl, k)
  All-cons_if false x xs h k = k

  All-keep : (p : A → Bool) (xs : List A) → ((x : A) → p x ≡ true → P x) → All P (keep p xs)
  All-keep p [] h = tt
  All-keep p (x ∷ xs) h = All-cons_if (p x) x (keep p xs) (h x) (All-keep p xs h)

  All-split_if :
      (b : Bool) (x : A) (kept rest : List A)
      → All P (if b then x ∷ kept else kept)
      → All P (if not b then x ∷ rest else rest)
      → P x × All P kept × All P rest
  All-split_if true x kept rest h k = (h.0, h.1, k)
  All-split_if false x kept rest h k = (k.0, h, k.1)

  All-keep_both :
      (p : A → Bool) (xs : List A) → All P (keep p xs) → All P (keep (λ x. not (p x)) xs) → All P xs
  All-keep_both p [] h k = tt
  All-keep_both p (x ∷ xs) h k =
      let (here, kept, rest) = All-split_if (p x) x (keep p xs) (keep (λ y. not (p y)) xs) h k in
      (here, All-keep_both p xs kept rest)

  All-take-drop : (n : ℕ) (xs : List A) → All P (take n xs) → All P (drop n xs) → All P xs
  All-take-drop zero xs h k = k
  All-take-drop (suc n) [] h k = tt
  All-take-drop (suc n) (x ∷ xs) h k = (h.0, All-take-drop n xs h.1 k)

  All-take : (n : ℕ) (xs : List A) → All P xs → All P (take n xs)
  All-take zero xs h = tt
  All-take (suc n) [] h = tt
  All-take (suc n) (x ∷ xs) h = (h.0, All-take n xs h.1)

  Any-append_left : (xs ys : List A) → Any P xs → Any P (xs ++ ys)
  Any-append_left [] ys h = elim h [ ]
  Any-append_left (x ∷ xs) ys (inl h) = inl h
  Any-append_left (x ∷ xs) ys (inr h) = inr (Any-append_left xs ys h)

module _ {A B : Type 0} (f : A → B) where
  All-In-map : (xs : List A) → All (λ x. In (f x) (map f xs)) xs
  All-In-map [] = tt
  All-In-map (x ∷ xs) = (inl refl, All-map xs (λ y. inr) (All-In-map xs))

  All-map_back : (P : B → Type 0) (xs : List A) → All (λ x. P (f x)) xs → All P (map f xs)
  All-map_back P [] h = tt
  All-map_back P (x ∷ xs) h = (h.0, All-map_back P xs h.1)

All-In-section :
    (title : Text) (b : Bool) (fs : List Finding)
    → All (λ f. In (render_bullet b f) (section title b fs)) fs
All-In-section title b [] = tt
All-In-section title b (f ∷ fs) =
    All-map (f ∷ fs) (λ g. inr) (All-In-map (render_bullet b) (f ∷ fs))

In-append_section_first :
    (x : Text) (first second : List Text) → In x first → In x (append_section first second)
In-append_section_first x [] second h = elim h [ ]
In-append_section_first x (p ∷ parts) [] h = h
In-append_section_first x (p ∷ parts) (q ∷ second) h =
    Any-append_left (λ y. y ≡ x) (p ∷ parts) ([] ∷ q ∷ second) h

In-append_section_second :
    (x : Text) (first second : List Text) → In x second → In x (append_section first second)
In-append_section_second x [] second h = h
In-append_section_second x (p ∷ parts) [] h = elim h [ ]
In-append_section_second x (p ∷ parts) (q ∷ second) h =
    Any-append_right (λ y. y ≡ x) (p ∷ parts) ([] ∷ q ∷ second) (inr h)

All-In-overflow :
    (locationless overflow : List Finding)
    → All (λ f. In (render_bullet true f) (top_parts locationless overflow)) overflow
unfolding top_parts
All-In-overflow locationless overflow =
    All-map overflow (λ f. In-append_section_second (render_bullet true f) _ _)
      (All-In-section _ true overflow)

All-In-locationless :
    (locationless overflow : List Finding)
    → All (λ f. In (render_bullet false f) (top_parts locationless overflow)) locationless
unfolding top_parts
All-In-locationless locationless overflow =
    All-map locationless (λ f. In-append_section_first (render_bullet false f) _ _)
      (All-In-section _ false locationless)

and_true : (a b : Bool) → not a && b ≡ true → (a ≡ false) × (b ≡ true)
and_true true b h = cc
and_true false b h = (refl, h)

HasPosition-build_inline_comment :
    (f : Finding) → has_location f ≡ true → HasPosition (build_inline_comment f)
unfolding has_location build_inline_comment
HasPosition-build_inline_comment f h = and_true (is_empty f.file) (at_least_one f.line) h

-- A review's payload has at most 50 inline comments, each with a path that is not empty and a line
-- of at least 1; its body is a list of lines joined; and every finding of the review is one of the
-- comments, or one of those lines, with its location or without.
pub build_payload-IsComplete :
    (findings : List Finding) (event : Text) → IsComplete findings (build_payload findings event)
unfolding build_payload compose_top_body
build_payload-IsComplete findings event = (
  omega (arith, length-map shown build_inline_comment, length-take inline_comment_cap pool),
  All-map_back build_inline_comment HasPosition shown (
      All-take _ inline_comment_cap pool
        (All-keep _ has_location findings HasPosition-build_inline_comment)),
  (
    top_parts locationless overflow,
    refl,
    All-keep_both IsShown' has_location findings
        (All-take-drop IsShown' inline_comment_cap pool
          (All-map shown (λ f. inl) (All-In-map build_inline_comment shown))
          (All-map overflow (λ f h. inr (inl h)) (All-In-overflow locationless overflow)))
        (All-map locationless (λ f h. inr (inr h)) (All-In-locationless locationless overflow)),
  ),
)
  where
    pool : List Finding
    pool = keep has_location findings

    overflow : List Finding
    overflow = drop inline_comment_cap pool

    locationless : List Finding
    locationless = keep (λ f. not (has_location f)) findings

    shown : List Finding
    shown = take inline_comment_cap pool

    IsShown' : Finding → Type 0
    IsShown' = IsShown (build_payload findings event) (top_parts locationless overflow)
