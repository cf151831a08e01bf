-- ===== src/History/Listing.antt =====
-- The list of the latest runs.
use codesensei.Common.{
  length-keep-sort, ◌+◌, Any, Any-append_left, Any-append_right, Any-sort, In, In-All, All-In,
  All-map, keep, keep-append, take-append-drop, Bool, Bool-cases, ◌⊎◌, inl, inr, ℕ, zero, suc, ◌≤◌,
  ◌≡◌, refl, ap, ◌∙◌, ℤ, pos, negsuc, List, [], ◌∷◌, ◌++◌, length, take, drop, min, All, All-append,
  sort, IsSorted, sort-IsSorted, length-sort, length-append, length-take, arith,
}
use codesensei.History.{ReviewRun, History, list_limit, backwards, newest_first, list_runs}

abbrev pub AreNewestFirst : List ReviewRun → Type 0
AreNewestFirst [] = Unit
AreNewestFirst (r ∷ rs) = All (λ q. q.created_at ≤ r.created_at) rs × AreNewestFirst rs

-- The limit asked for, within 1 and 200, and 50 in place of one below.
abbrev pub IsLimit : ℤ → ℕ → Type 0
IsLimit (negsuc n) m = m ≡ 50
IsLimit (pos zero) m = m ≡ 50
IsLimit (pos (suc n)) m = m ≡ min (suc n) 200

-- Runs of the history, none more often than there, as many as the limit and the history allow;
-- newest first; and every other run of the history is no newer than these.
abbrev pub IsListing : History → ℤ → List ReviewRun → Type 0
IsListing h limit listed =
    (m : ℕ) × IsLimit limit m
    × (length listed ≡ min m (length h.runs))
    × AreNewestFirst listed
    × ((p : ReviewRun → Bool) → length (keep p listed) ≤ length (keep p h.runs))
    × All (λ q. In q listed ⊎ All (λ r. q.created_at ≤ r.created_at) listed) h.runs

All-backwards : {A : Type 0} (P : A → Type 0) (xs : List A) → All P xs → All P (backwards xs)
All-backwards P [] h = tt
All-backwards P (x ∷ xs) (h, hs) =
    All-append P (backwards xs) (x ∷ []) (All-backwards P xs hs) (h, tt)

length-backwards : {A : Type 0} (xs : List A) → length (backwards xs) ≡ length xs
length-backwards [] = refl
length-backwards (x ∷ xs) =
    length-append (backwards xs) (x ∷ []) ∙ omega (arith, length-backwards xs)

AreNewestFirst-snoc :
    (rs : List ReviewRun) (last : ReviewRun)
    → All (λ r. last.created_at ≤ r.created_at) rs
    → AreNewestFirst rs
    → AreNewestFirst (rs ++ (last ∷ []))
AreNewestFirst-snoc [] last h k = (tt, tt)
AreNewestFirst-snoc (r ∷ rs) last (h, hs) (k, ks) =
    (All-append _ rs (last ∷ []) k (h, tt), AreNewestFirst-snoc rs last hs ks)

AreNewestFirst-backwards :
    (rs : List ReviewRun) → IsSorted (λ r. r.created_at) rs → AreNewestFirst (backwards rs)
AreNewestFirst-backwards [] h = tt
AreNewestFirst-backwards (r ∷ rs) (h, hs) =
    AreNewestFirst-snoc (backwards rs) r (All-backwards _ rs h) (AreNewestFirst-backwards rs hs)

All-take : {A : Type 0} (P : A → Type 0) (n : ℕ) (xs : List A) → All P xs → All P (take n xs)
All-take P zero xs h = tt
All-take P (suc n) [] h = tt
All-take P (suc n) (x ∷ xs) h = (h.0, All-take P n xs h.1)

AreNewestFirst-take : (n : ℕ) (rs : List ReviewRun) → AreNewestFirst rs → AreNewestFirst (take n rs)
AreNewestFirst-take zero rs h = tt
AreNewestFirst-take (suc n) [] h = tt
AreNewestFirst-take (suc n) (r ∷ rs) h = (All-take _ n rs h.0, AreNewestFirst-take n rs h.1)

list_limit-IsLimit : (limit : ℤ) → IsLimit limit (list_limit limit)
list_limit-IsLimit (negsuc n) = refl
list_limit-IsLimit (pos zero) = refl
list_limit-IsLimit (pos (suc n)) = ground arith

AreNewestFirst-newest_first : (rs : List ReviewRun) → AreNewestFirst (newest_first rs)
AreNewestFirst-newest_first rs =
    AreNewestFirst-backwards _ (sort-IsSorted (λ r. r.created_at) (sort (λ r. r.run_id) rs))

length-newest_first : (rs : List ReviewRun) → length (newest_first rs) ≡ length rs
length-newest_first rs =
    length-backwards (sort (λ r. r.created_at) (sort (λ r. r.run_id) rs))
    ∙ length-sort (λ r. r.created_at) (sort (λ r. r.run_id) rs)
    ∙ length-sort (λ r. r.run_id) rs

keep-backwards :
    (p : ReviewRun → Bool) (rs : List ReviewRun)
    → length (keep p (backwards rs)) ≡ length (keep p rs)
keep-backwards p [] = refl
keep-backwards p (r ∷ rs) =
    ap length (keep-append p (backwards rs) (r ∷ []))
    ∙ length-append (keep p (backwards rs)) (keep p (r ∷ []))
    ∙ omega (arith, keep-backwards p rs, keep-cons)
  where
    keep-cons : length (keep p (r ∷ rs)) ≡ length (keep p rs) + length (keep p (r ∷ []))
    keep-cons = elim (Bool-cases (p r)) [
      | inl kept ↦ rw kept (omega arith)
      | inr left ↦ rw left (omega arith)
    ]

keep-newest_first :
    (p : ReviewRun → Bool) (rs : List ReviewRun)
    → length (keep p (newest_first rs)) ≡ length (keep p rs)
keep-newest_first p rs =
    keep-backwards p _
    ∙ length-keep-sort (λ r. r.created_at) p (sort (λ r. r.run_id) rs)
    ∙ length-keep-sort (λ r. r.run_id) p rs

keep-take :
    (p : ReviewRun → Bool) (n : ℕ) (rs : List ReviewRun)
    → length (keep p (take n rs)) ≤ length (keep p rs)
keep-take p n rs = omega (
  arith,
  ap (λ xs. length (keep p xs)) (take-append-drop n rs),
  ap length (keep-append p (take n rs) (drop n rs)),
  length-append (keep p (take n rs)) (keep p (drop n rs)),
)

Any-backwards : (P : ReviewRun → Type 0) (rs : List ReviewRun) → Any P rs → Any P (backwards rs)
Any-backwards P [] h = h
Any-backwards P (r ∷ rs) (inl h) = Any-append_right P (backwards rs) (r ∷ []) (inl h)
Any-backwards P (r ∷ rs) (inr h) = Any-append_left P (backwards rs) (r ∷ []) (Any-backwards P rs h)

In-newest_first : (q : ReviewRun) (rs : List ReviewRun) → In q rs → In q (newest_first rs)
In-newest_first q rs h =
    Any-backwards _ _
      (Any-sort (λ r. r.created_at) _ (sort (λ r. r.run_id) rs) (Any-sort (λ r. r.run_id) _ rs h))

-- A run is taken, or no newer than those that are.
taken-or :
    (q : ReviewRun) (n : ℕ) (rs : List ReviewRun)
    → AreNewestFirst rs
    → In q rs
    → In q (take n rs) ⊎ All (λ r. q.created_at ≤ r.created_at) (take n rs)
taken-or q zero rs h k = inr tt
taken-or q (suc n) [] h k = elim k [ ]
taken-or q (suc n) (r ∷ rs) h (inl e) = inl (inl e)
taken-or q (suc n) (r ∷ rs) (h, hs) (inr k) = elim (taken-or q n rs hs k) [
  | inl m ↦ inl (inr m)
  | inr m ↦ inr (In-All (λ x. x.created_at ≤ r.created_at) q rs h k, m)
]

-- For every limit, the list holds as many runs as the limit (50 for one below 1, 200 for one above
-- 200) or the history allows, none more often than the history; it is newest first, and no run
-- that is left out is newer than one that is listed.
pub list_runs-IsListing : (h : History) (limit : ℤ) → IsListing h limit (list_runs h limit)
unfolding list_runs
list_runs-IsListing h limit = (
  list_limit limit,
  list_limit-IsLimit limit,
  length-take (list_limit limit) (newest_first h.runs)
      ∙ ap (min (list_limit limit)) (length-newest_first h.runs),
  AreNewestFirst-take (list_limit limit) (newest_first h.runs) sorted,
  λ p.
      omega
        (arith, keep-take p (list_limit limit) (newest_first h.runs), keep-newest_first p h.runs),
  All-map h.runs
      (λ q k.
        taken-or q (list_limit limit) (newest_first h.runs) sorted (In-newest_first q h.runs k))
      (All-In h.runs),
)
  where
    sorted : AreNewestFirst (newest_first h.runs)
    sorted = AreNewestFirst-newest_first h.runs
