-- ===== src/Review/CloneCache/Close.antt =====
-- What many uses of one source run.
use codesensei.Common.{
  ℕ, ◌+◌, ◌-◌, ◌≤◌, ◌≡◌, refl, ap, ◌∙◌, inl, inr, true, some, List, [], ◌∷◌, ◌++◌, Text, text_eq,
  ltb, Bool-cases, arith,
}
use codesensei.Common.Dict.{get}
use codesensei.Review.CloneCache.{
  Cache, stale_clone, CloneEnd, is_https_source, touch, touched, reused, with_dir, clone_or_reuse,
  uses,
}

-- Each use follows the one before it, or the last touch, by no more than the age that is stale.
abbrev pub AreClose : ℕ → List ℕ → Type 0
AreClose m [] = Unit
AreClose m (now ∷ times) = (now ≤ m + stale_clone) × AreClose now times

get-touch :
    (digest : Text) (now m : ℕ) (cache : Cache)
    → get digest cache ≡ some m
    → get digest (touch digest now cache) ≡ some now
get-touch digest now m [] h = cc h
get-touch digest now m ((d, t) ∷ cache) h = elim (Bool-cases (text_eq d digest)) [
  | inl same ↦ rw same refl
  | inr other ↦ rw other (
      get-touch digest now m cache
        (let rest : get digest cache ≡ some m = ground (arith, h, other) in rest))
]

reused-close :
    (now m : ℕ) (digest : Text) (cache : Cache)
    → now ≤ m + stale_clone
    → reused now digest m cache ≡ touched now digest [] cache
reused-close now m digest cache h = elim (Bool-cases (ltb stale_clone (now - m))) [
  | inl stale ↦ elim (late stale) [ ]
  | inr recent ↦ rw recent refl
]
  where
    late : ltb stale_clone (now - m) ≡ true → ⊥
    late stale = ground (arith, stale, h)

clone_or_reuse-close :
    (sha1 : Text → Text) (now : ℕ) (source : Text) (ends : CloneEnd) (cache : Cache) (m : ℕ)
    → is_https_source source ≡ true
    → get (sha1 source) cache ≡ some m
    → now ≤ m + stale_clone
    → clone_or_reuse sha1 now source ends cache ≡ touched now (sha1 source) [] cache
unfolding clone_or_reuse
clone_or_reuse-close sha1 now source ends cache m https at close =
    rw https
      (ap (with_dir now (sha1 source) ends cache) at ∙ reused-close now m (sha1 source) cache close)

-- Where a source is cloned already, and is used again and again at intervals of an hour at most, no use
-- ever fetches it, however many they are and however long they take.
pub uses-close :
    (sha1 : Text → Text) (source : Text) (ends : CloneEnd) (times : List ℕ) (cache : Cache) (m : ℕ)
    → is_https_source source ≡ true
    → get (sha1 source) cache ≡ some m
    → AreClose m times
    → uses sha1 source ends times cache ≡ []
unfolding uses
uses-close sha1 source ends [] cache m https at close = refl
uses-close sha1 source ends (now ∷ times) cache m https at (close, rest) =
    ap (λ r. r.calls ++ uses sha1 source ends times r.cache)
      (clone_or_reuse-close sha1 now source ends cache m https at close)
    ∙ uses-close sha1 source ends times (touch (sha1 source) now cache) now https
        (get-touch (sha1 source) now m cache at) rest
