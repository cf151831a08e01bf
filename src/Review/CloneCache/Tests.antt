-- ===== src/Review/CloneCache/Tests.antt =====
-- Runs of the clone cache.
use codesensei.Common.{
  ◌≡◌, refl, true, [], ◌∷◌, Text, codes, text_eq, starts_with, arith, comes_first,
}
use codesensei.Review.CloneCache.{
  Cache, clones, fetch, is_https_source, evict_if_needed, clone_or_reuse, uses,
}
use codesensei.Review.CloneCache.Laws.{IsReuse, clone_or_reuse-IsReuse}
use codesensei.Review.CloneCache.Close.{uses-close}

abbrev sha1 : Text → Text
sha1 s = s

abbrev source : Text
source = codes "https://h/r"

abbrev full : Cache
full = (codes "a", 5) ∷ (codes "b", 3) ∷ (codes "c", 4) ∷ (codes "d", 9) ∷ (codes "e", 8) ∷ []

-- The oldest directory goes.
evicted :
    (clone_or_reuse sha1 10 source clones full).cache
    ≡ (codes "c", 4) ∷ (codes "a", 5) ∷ (codes "e", 8) ∷ (codes "d", 9) ∷ (source, 10) ∷ []
unfolding clone_or_reuse is_https_source evict_if_needed text_eq starts_with comes_first
evicted = refl

one_fetch : uses sha1 source clones (4000 ∷ 4001 ∷ []) ((source, 1) ∷ []) ≡ fetch ∷ []
unfolding uses clone_or_reuse is_https_source evict_if_needed text_eq starts_with
one_fetch = refl

clone_or_reuse-IsReuse_example : IsReuse 10 (clone_or_reuse sha1 10 source clones full)
clone_or_reuse-IsReuse_example =
    clone_or_reuse-IsReuse sha1 10 source clones full (omega arith, omega arith)

web : is_https_source source ≡ true
unfolding is_https_source starts_with
web = refl

uses-close_example : uses sha1 source clones (3000 ∷ 6000 ∷ 9000 ∷ []) ((source, 1) ∷ []) ≡ []
unfolding text_eq
uses-close_example =
    uses-close sha1 source clones (3000 ∷ 6000 ∷ 9000 ∷ []) ((source, 1) ∷ []) 1 web refl
      (omega arith, (omega arith, (omega arith, tt)))
