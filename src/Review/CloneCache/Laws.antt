-- ===== src/Review/CloneCache/Laws.antt =====
-- What a use leaves of the cache, and what many uses run.
use codesensei.Common.{
  ℕ, zero, suc, ◌-◌, ◌≤◌, ◌≡◌, refl, sym, ap, ◌∙◌, inl, inr, true, Option, none, some, List, [],
  ◌∷◌, ◌++◌, Text, text_eq, text_eq_refl, ltb, leb, length, length-append, length-drop, length-sort,
  drop, sort, insert, comes_first, le-first, All, All-append, All-sort, All-drop, Any,
  Any-append_right, Bool-cases, arith,
}
use mathlib.Core.Path.{subst}
use codesensei.Common.Dict.{get}
use codesensei.Review.Temporal.{Clone, usable, unsupported, clone_raises}
use codesensei.Review.CloneCache.{
  Cache, max_cached_repos, stale_clone, evict_if_needed, CloneEnd, clones, fails, raises,
  is_https_source, GitCall, Reuse, touch, touched, with_dir, clone_or_reuse,
}

abbrev key : Text × ℕ → ℕ
key e = e.1

-- At most five directories, none touched after the time.
abbrev pub IsCache : ℕ → Cache → Type 0
IsCache now cache = (length cache ≤ 5) × All (λ (e : Text × ℕ). e.1 ≤ now) cache

-- A directory that is returned is there, and touched at the time.
abbrev pub IsThere : ℕ → Cache → Clone → Type 0
IsThere now cache (usable digest) =
    Any (λ (e : Text × ℕ). (text_eq e.0 digest ≡ true) × (e.1 ≡ now)) cache
IsThere now cache unsupported = Unit
IsThere now cache clone_raises = Unit

abbrev pub IsReuse : ℕ → Reuse → Type 0
IsReuse now r = IsCache now r.cache × IsThere now r.cache r.end

length-touch :
    (digest : Text) (now : ℕ) (cache : Cache) → length (touch digest now cache) ≡ length cache
length-touch digest now [] = refl
length-touch digest now ((d, t) ∷ cache) = ap suc (length-touch digest now cache)

touch-le :
    (digest : Text) (now : ℕ) (cache : Cache)
    → All (λ (e : Text × ℕ). e.1 ≤ now) cache
    → All (λ (e : Text × ℕ). e.1 ≤ now) (touch digest now cache)
touch-le digest now [] h = tt
touch-le digest now ((d, t) ∷ cache) (h, hs) = elim (Bool-cases (text_eq d digest)) [
  | inl same ↦ rw same (omega arith, touch-le digest now cache hs)
  | inr other ↦ rw other (h, touch-le digest now cache hs)
]

touch-IsThere :
    (digest : Text) (now : ℕ) (cache : Cache)
    → Any (λ (e : Text × ℕ). text_eq e.0 digest ≡ true) cache
    → IsThere now (touch digest now cache) (usable digest)
touch-IsThere digest now [] h = elim h [ ]
touch-IsThere digest now ((d, t) ∷ cache) (inl same) = inl (same, rw same refl)
touch-IsThere digest now ((d, t) ∷ cache) (inr h) = inr (touch-IsThere digest now cache h)

get-Any :
    (digest : Text) (cache : Cache) (m : ℕ)
    → get digest cache ≡ some m
    → Any (λ (e : Text × ℕ). text_eq e.0 digest ≡ true) cache
get-Any digest [] m h = cc h
get-Any digest ((d, t) ∷ cache) m h = elim (Bool-cases (text_eq d digest)) [
  | inl same ↦ inl same
  | inr other ↦ inr (
      get-Any digest cache m
        (let rest : get digest cache ≡ some m = ground (arith, h, other) in rest))
]

-- The last touched directory is the last in the order of the times.
insert-snoc :
    (x e : Text × ℕ) (ys : Cache)
    → x.1 ≤ e.1
    → insert key x (ys ++ (e ∷ [])) ≡ insert key x ys ++ (e ∷ [])
insert-snoc x e [] h = rw (le-first key x e h) refl
insert-snoc x e (y ∷ ys) h = elim (Bool-cases (comes_first key x y)) [
  | inl le ↦ rw le refl
  | inr gt ↦ rw gt (ap (λ zs. y ∷ zs) (insert-snoc x e ys h))
]

sort-snoc :
    (e : Text × ℕ) (cache : Cache)
    → All (λ (x : Text × ℕ). x.1 ≤ e.1) cache
    → sort key (cache ++ (e ∷ [])) ≡ sort key cache ++ (e ∷ [])
sort-snoc e [] h = refl
sort-snoc e (x ∷ cache) (h, hs) =
    ap (insert key x) (sort-snoc e cache hs) ∙ insert-snoc x e (sort key cache) h

drop-snoc :
    (n : ℕ) (xs : Cache) (e : Text × ℕ)
    → n ≤ length xs
    → drop n (xs ++ (e ∷ [])) ≡ drop n xs ++ (e ∷ [])
drop-snoc zero xs e h = refl
drop-snoc (suc n) [] e h = elim (no h) [ ]
  where
    no : suc n ≤ 0 → ⊥
    no h = omega (arith, h)
drop-snoc (suc n) (x ∷ xs) e h = drop-snoc n xs e (omega (arith, h))

-- After an eviction the last touched directory is still there.
evict_if_needed-snoc :
    (now : ℕ) (cache : Cache) (digest : Text)
    → IsCache now cache
    → IsCache now (evict_if_needed (cache ++ ((digest, now) ∷ [])))
      × Any
          (λ (e : Text × ℕ). text_eq e.0 digest ≡ true)
          (evict_if_needed (cache ++ ((digest, now) ∷ [])))
unfolding evict_if_needed
evict_if_needed-snoc now cache digest (short, past) =
    let more : Cache = cache ++ ((digest, now) ∷ []) in
    let all_past : All (λ (e : Text × ℕ). e.1 ≤ now) more =
      All-append _ cache ((digest, now) ∷ []) past (omega arith, tt) in
    let here : Any (λ (e : Text × ℕ). text_eq e.0 digest ≡ true) ((digest, now) ∷ []) =
      inl (text_eq_refl digest) in
    elim (Bool-cases (leb (length more) max_cached_repos)) [
      | inl room ↦
          rw room
            ((ground (arith, room), all_past), Any-append_right _ cache ((digest, now) ∷ []) here)
      | inr full ↦
          let over : ℕ = length more - max_cached_repos in
          let kept : drop over (sort key more)
              ≡ drop over (sort key cache) ++ ((digest, now) ∷ []) =
            ap (drop over) (sort-snoc (digest, now) cache past)
            ∙ drop-snoc over (sort key cache) (digest, now)
                (omega (
                  arith,
                  length-sort key cache,
                  length-append cache ((digest, now) ∷ []),
                  short,
                )) in
          rw full (
            (
              omega (arith, length-drop over (sort key more), length-sort key more),
              All-drop _ over (sort key more) (All-sort key _ more all_past),
            ),
            subst (Any (λ (e : Text × ℕ). text_eq e.0 digest ≡ true)) (sym kept)
                (Any-append_right _ (drop over (sort key cache)) ((digest, now) ∷ []) here),
          )
    ]

touched-IsReuse :
    (now : ℕ) (digest : Text) (calls : List GitCall) (cache : Cache)
    → IsCache now cache
    → Any (λ (e : Text × ℕ). text_eq e.0 digest ≡ true) cache
    → IsReuse now (touched now digest calls cache)
touched-IsReuse now digest calls cache (short, past) there = (
  (omega (arith, short, length-touch digest now cache), touch-le digest now cache past),
  touch-IsThere digest now cache there,
)

with_dir-IsReuse :
    (now : ℕ) (digest : Text) (ends : CloneEnd) (cache : Cache) (o : Option ℕ)
    → IsCache now cache
    → get digest cache ≡ o
    → IsReuse now (with_dir now digest ends cache o)
with_dir-IsReuse now digest clones cache none h at =
    let kept = evict_if_needed-snoc now cache digest h in
    touched-IsReuse now digest [] (evict_if_needed (cache ++ ((digest, now) ∷ []))) kept.0 kept.1
with_dir-IsReuse now digest fails cache none h at = (h, tt)
with_dir-IsReuse now digest raises cache none h at = (h, tt)
with_dir-IsReuse now digest ends cache (some m) h at =
    elim (Bool-cases (ltb stale_clone (now - m))) [
      | inl stale ↦ rw stale (touched-IsReuse now digest [] cache h (get-Any digest cache m at))
      | inr recent ↦ rw recent (touched-IsReuse now digest [] cache h (get-Any digest cache m at))
    ]

-- A use of a cache of at most five directories, none touched after now, leaves such a cache, and a
-- directory that it returns is in it, touched now.
pub clone_or_reuse-IsReuse :
    (sha1 : Text → Text) (now : ℕ) (source : Text) (ends : CloneEnd) (cache : Cache)
    → IsCache now cache
    → IsReuse now (clone_or_reuse sha1 now source ends cache)
unfolding clone_or_reuse
clone_or_reuse-IsReuse sha1 now source ends cache h = elim (Bool-cases (is_https_source source)) [
  | inl https ↦
      rw https (with_dir-IsReuse now (sha1 source) ends cache (get (sha1 source) cache) h refl)
  | inr unread ↦ rw unread (h, tt)
]
