-- ===== src/Indexing/Retrieval/Nearest.antt =====
-- The rows of one query.
use codesensei.Common.{
  ◌≤◌, ℕ, ◌+◌, ◌≡◌, refl, sym, ap, ◌∙◌, Bool, true, not, Option, none, some, List, [], ◌∷◌, ◌++◌,
  ◌==◌, length, take, drop, map, keep, sort, min, All, All-map, All-append, All-keep, All-sort,
  All-keep_with, All-In, In, Pairs, Pairs-map, IsSorted-Pairs, sort-IsSorted, keep-append,
  length-keep-sort, All-true, length-append, length-take, take-append-drop, All-take, arith,
}
use mathlib.Core.Path.{subst}
use codesensei.Common.Options.{HasValue}
use codesensei.Common.Digits.{Unicode, is_some}
use codesensei.Indexing.Store.{CodeChunk, Db}
use codesensei.Indexing.Retrieval.{rows_of, number, nearest}

module _ {A : Type 0} where
  Pairs-append :
      (R : A → A → Type 0) (xs ys : List A)
      → Pairs R xs
      → Pairs R ys
      → All (λ x. All (R x) ys) xs
      → Pairs R (xs ++ ys)
  Pairs-append R [] ys h k c = k
  Pairs-append R (x ∷ xs) ys (h, hs) k (c, cs) =
      (All-append (R x) xs ys h c, Pairs-append R xs ys hs k cs)

  length-keep-not :
      (p q : A → Bool) (xs : List A)
      → length (keep p (keep q xs)) + length (keep p (keep (λ x. not (q x)) xs))
        ≡ length (keep p xs)
  length-keep-not p q [] = refl
  length-keep-not p q (x ∷ xs) = ground (arith, length-keep-not p q xs)

  keep-true : (xs : List A) → length (keep (λ x. true) xs) ≡ length xs
  keep-true [] = refl
  keep-true (x ∷ xs) = omega (arith, keep-true xs)

module _ {V : Type 0} (u : Unicode) (distance : V → V → Option ℕ) where
  abbrev Row : Type 0
  Row = CodeChunk V × Option ℕ

  -- The chunks of the repository, each with its distance.
  abbrev pub owned : Db V → ℕ → V → List (CodeChunk V × Option ℕ)
  owned db id v =
      map (λ (c : CodeChunk V). (c, distance c.row.embedding v))
        (keep (λ (c : CodeChunk V). c.owner == id) db.chunks)

  -- Where the second row has a distance, the first has one that is not larger.
  abbrev pub NoFarther : CodeChunk V × Option ℕ → CodeChunk V × Option ℕ → Type 0
  NoFarther r (c, none) = Unit
  NoFarther r (c, some d) = HasValue (λ e. e ≤ d) r.1

  -- A chunk of the repository, with its distance.
  abbrev pub IsRow : Db V → ℕ → V → CodeChunk V × Option ℕ → Type 0
  IsRow db id v r = (In r.0 db.chunks × (r.0.owner ≡ id)) × (r.1 ≡ distance r.0.row.embedding v)

  -- The nearest `k` chunks of the repository: with the rest of them they are all its chunks, each as
  -- often as it is stored, and none is farther than a later one.
  abbrev pub IsNearest : Db V → ℕ → ℕ → V → List (CodeChunk V × Option ℕ) → Type 0
  IsNearest db id k v rows =
      All (IsRow db id v) rows
      × (length rows ≡ min k (length (owned db id v)))
      × ((rest : List (CodeChunk V × Option ℕ)) × ((p : CodeChunk V × Option ℕ → Bool)
            → length (keep p (rows ++ rest)) ≡ length (keep p (owned db id v)))
          × Pairs NoFarther (rows ++ rest))

  ordered : List Row → List Row
  ordered rows =
      sort (number u distance) (keep (λ (r : Row). is_some r.1) rows)
      ++ keep (λ (r : Row). not (is_some r.1)) rows

  length-keep-ordered :
      (p : Row → Bool) (rows : List Row) → length (keep p (ordered rows)) ≡ length (keep p rows)
  unfolding ordered
  length-keep-ordered p rows =
      let near : List Row = keep (λ (r : Row). is_some r.1) rows in
      let null : List Row = keep (λ (r : Row). not (is_some r.1)) rows in
      ap length (keep-append p (sort (number u distance) near) null)
      ∙ length-append (keep p (sort (number u distance) near)) (keep p null)
      ∙ ap (λ n. n + length (keep p null)) (length-keep-sort (number u distance) p near)
      ∙ length-keep-not p (λ r. is_some r.1) rows

  NoFarther-null : (r s : Row) → not (is_some s.1) ≡ true → NoFarther r s
  NoFarther-null r (c, none) h = tt
  NoFarther-null r (c, some d) h = absurd (cc)

  NoFarther-number :
      (r s : Row)
      → is_some r.1 ≡ true
      → is_some s.1 ≡ true
      → number u distance r ≤ number u distance s
      → NoFarther r s
  NoFarther-number (c, none) s h k le = absurd (cc)
  NoFarther-number (c, some d) (c', none) h k le = tt
  NoFarther-number (c, some d) (c', some e) h k le = le

  Pairs-null : (rs : List Row) → All (λ r. not (is_some r.1) ≡ true) rs → Pairs NoFarther rs
  Pairs-null [] h = tt
  Pairs-null (r ∷ rs) (h, hs) = (All-map rs (NoFarther-null r) hs, Pairs-null rs hs)

  kept : (p : Row → Bool) (rows : List Row) → All (λ r. p r ≡ true) (keep p rows)
  kept p rows = All-keep_with p rows (λ r h _. h) (All-true (λ r. Unit {0}) rows (λ r. tt))

  ordered-Pairs : (rows : List Row) → Pairs NoFarther (ordered rows)
  unfolding ordered
  ordered-Pairs rows =
      let near : List Row = keep (λ (r : Row). is_some r.1) rows in
      let null : List Row = keep (λ (r : Row). not (is_some r.1)) rows in
      let nulls : All (λ (r : Row). not (is_some r.1) ≡ true) null = kept _ rows in
      Pairs-append NoFarther (sort (number u distance) near) null
        (Pairs-map (λ (r : Row). is_some r.1 ≡ true) _ NoFarther (sort (number u distance) near)
          NoFarther-number (All-sort (number u distance) _ near (kept _ rows))
          (IsSorted-Pairs (number u distance) _ (sort-IsSorted (number u distance) near)))
        (Pairs-null null nulls) (All-true _ _ (λ r. All-map null (NoFarther-null r) nulls))

  keep-IsOwned :
      (db : Db V) (id : ℕ)
      → All
          (λ (c : CodeChunk V). In c db.chunks × (c.owner ≡ id))
          (keep (λ (c : CodeChunk V). c.owner == id) db.chunks)
  keep-IsOwned db id =
      All-keep_with (λ (c : CodeChunk V). c.owner == id) db.chunks
        (λ c same k. (k, ground (arith, same))) (All-In db.chunks)

  rows_of-IsRow :
      (db : Db V) (id : ℕ) (v : V) (cs : List (CodeChunk V))
      → All (λ (c : CodeChunk V). In c db.chunks × (c.owner ≡ id)) cs
      → All (IsRow db id v) (rows_of u distance v cs)
  rows_of-IsRow db id v [] h = tt
  rows_of-IsRow db id v (c ∷ cs) (h, hs) = ((h, refl), rows_of-IsRow db id v cs hs)

  ordered-IsRow :
      (db : Db V) (id : ℕ) (v : V) (rows : List Row)
      → All (IsRow db id v) rows
      → All (IsRow db id v) (ordered rows)
  unfolding ordered
  ordered-IsRow db id v rows good =
      All-append (IsRow db id v) _ _
        (All-sort (number u distance) (IsRow db id v) _
          (All-keep (IsRow db id v) (λ (r : Row). is_some r.1) rows good))
        (All-keep (IsRow db id v) (λ (r : Row). not (is_some r.1)) rows good)

  pub nearest-IsNearest :
      (db : Db V) (id k : ℕ) (v : V) → IsNearest db id k v (nearest u distance db id k v)
  unfolding nearest ordered
  nearest-IsNearest db id k v =
      let rows : List Row = owned db id v in
      let whole : take k (ordered rows) ++ drop k (ordered rows) ≡ ordered rows =
        take-append-drop k (ordered rows) in
      (
        All-take (IsRow db id v) k (ordered rows)
            (ordered-IsRow db id v rows (rows_of-IsRow db id v _ (keep-IsOwned db id))),
        length-take k (ordered rows)
            ∙ ap (min k) (
                sym (keep-true (ordered rows))
                ∙ length-keep-ordered (λ r. true) rows
                ∙ keep-true rows),
        (
          drop k (ordered rows),
          λ p. ap (λ rs. length (keep p rs)) whole ∙ length-keep-ordered p rows,
          subst (Pairs NoFarther) (sym whole) (ordered-Pairs rows),
        ),
      )
