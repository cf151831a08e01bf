-- ===== src/History/Prune.antt =====
-- What the prune leaves of the history.
use codesensei.Common.{
  ℕ, zero, suc, ◌-◌, ◌≤◌, ◌≢◌, ◌≡◌, refl, sym, ap, ◌∙◌, inl, inr, Bool, true, false, not, List, [],
  ◌∷◌, ◌==◌, length, take, drop, keep, map, sort, insert, comes_first, All, All-map, All-sort,
  All-insert, keep-sort, length-sort, length-drop, Bool-cases, ==_iff, arith,
}
use codesensei.History.{
  ReviewRun, History, history_max_rows, has_id, delete_ids, oldest, prune_to_cap,
}

-- No two runs have one identifier.
abbrev pub AreDistinct : List ReviewRun → Type 0
AreDistinct [] = Unit
AreDistinct (r ∷ rs) = All (λ q. r.run_id ≢ q.run_id) rs × AreDistinct rs

abbrev pub by_age : List ReviewRun → List ReviewRun
by_age = sort (λ r. r.created_at)

abbrev pub overflow : List ReviewRun → ℕ
overflow runs = length runs - history_max_rows

-- The oldest rows beyond the cap are gone, and counted; the others are there, in their order.
abbrev pub IsPruned : History → ℕ × History → Type 0
IsPruned h (deleted, h') =
    (length h'.runs ≤ 1000)
    × (deleted ≡ overflow h.runs)
    × (by_age h'.runs ≡ drop (overflow h.runs) (by_age h.runs))

module _ {A : Type 0} where
  keep-eq : (p q : A → Bool) (xs : List A) → All (λ x. p x ≡ q x) xs → keep p xs ≡ keep q xs
  keep-eq p q [] h = refl
  keep-eq p q (x ∷ xs) (h, hs) = rw (h, keep-eq p q xs hs) refl

  keep-true : (xs : List A) → keep (λ x. true) xs ≡ xs
  keep-true [] = refl
  keep-true (x ∷ xs) = ap (λ ys. x ∷ ys) (keep-true xs)

AreDistinct-insert :
    (r : ReviewRun) (qs : List ReviewRun)
    → All (λ q. r.run_id ≢ q.run_id) qs
    → AreDistinct qs
    → AreDistinct (insert (λ q. q.created_at) r qs)
AreDistinct-insert r [] h k = (tt, tt)
AreDistinct-insert r (q ∷ qs) (h, hs) (k, ks) =
    elim (Bool-cases (comes_first (λ x. x.created_at) r q)) [
      | inl le ↦ rw le ((h, hs), (k, ks))
      | inr gt ↦ rw gt (
        All-insert (λ x. x.created_at) (λ x. q.run_id ≢ x.run_id) r qs (λ e. h (sym e)) k,
        AreDistinct-insert r qs hs ks,
      )
    ]

AreDistinct-by_age : (rs : List ReviewRun) → AreDistinct rs → AreDistinct (by_age rs)
AreDistinct-by_age [] h = tt
AreDistinct-by_age (r ∷ rs) (h, hs) =
    AreDistinct-insert r (by_age rs) (All-sort (λ x. x.created_at) (λ q. r.run_id ≢ q.run_id) rs h)
      (AreDistinct-by_age rs hs)

abbrev ids : List ReviewRun → List ℕ
ids = map (λ r. r.run_id)

has_id_other : (i : ℕ) (is : List ℕ) (j : ℕ) → i ≢ j → not (has_id (i ∷ is) j) ≡ not (has_id is j)
has_id_other i is j h = ground (arith, h)

has_id_self : (i : ℕ) (is : List ℕ) → not (has_id (i ∷ is) i) ≡ false
has_id_self i is = rw ((==_iff i i).1 refl) refl

keep-drop :
    (n : ℕ) (rs : List ReviewRun)
    → AreDistinct rs
    → keep (λ r. not (has_id (ids (take n rs)) r.run_id)) rs ≡ drop n rs
keep-drop zero rs h = keep-true rs
keep-drop (suc n) [] h = refl
keep-drop (suc n) (r ∷ rs) (h, hs) = rw (has_id_self r.run_id (ids (take n rs))) (
    keep-eq _ _ rs (All-map rs (λ q e. has_id_other r.run_id (ids (take n rs)) q.run_id e) h)
    ∙ keep-drop n rs hs)

module _ (h : History) (distinct : AreDistinct h.runs) where
  left : List ReviewRun
  left = (delete_ids (ids (oldest (overflow h.runs) h.runs)) h).runs

  by_age-left : by_age left ≡ drop (overflow h.runs) (by_age h.runs)
  unfolding left
  by_age-left =
      sym (keep-sort (λ r. r.created_at) _ h.runs)
      ∙ keep-drop (overflow h.runs) (by_age h.runs) (AreDistinct-by_age h.runs distinct)

  length-left : length left ≡ length h.runs - overflow h.runs
  length-left =
      sym (length-sort (λ r. r.created_at) left)
      ∙ ap length by_age-left
      ∙ length-drop (overflow h.runs) (by_age h.runs)
      ∙ ap (λ n. n - overflow h.runs) (length-sort (λ r. r.created_at) h.runs)

-- Where no two runs share an identifier, the prune leaves at most 1000 runs, returns how many it
-- deleted, which is the excess over 1000, and leaves what the runs are, by age, without the oldest
-- of that number.
pub prune_to_cap-IsPruned : (h : History) → AreDistinct h.runs → IsPruned h (prune_to_cap h)
unfolding prune_to_cap left
prune_to_cap-IsPruned h distinct = elim (Bool-cases (overflow h.runs == 0)) [
  | inl none_over ↦
      let zero_over : overflow h.runs ≡ 0 = (==_iff (overflow h.runs) 0).0 none_over in
      rw none_over
        (omega (arith, zero_over), sym zero_over, ap (λ n. drop n (by_age h.runs)) (sym zero_over))
  | inr some_over ↦ rw some_over (
    omega (arith, length-left h distinct),
    omega (arith, length-left h distinct),
    by_age-left h distinct,
  )
]
