-- ===== src/Review/CloneCache.antt =====
-- backend/src/codesensei/review/git_temporal.py: `_clone_or_reuse` and `_evict_if_needed`. The cache is
-- the directories below its root with the times they were last touched, in seconds; SHA-1 and how git
-- ends are parameters. A failed removal, a failed touch and other processes are left out.
pub mod Laws
pub mod Close
pub mod Tests
use codesensei.Common.{
  ℕ, zero, suc, ◌+◌, ◌-◌, Bool, true, false, not, ◌||◌, Option, none, some, List, [], ◌∷◌, ◌++◌,
  Text, codes, text_eq, ltb, leb, if◌then◌else◌, length, drop, keep, sort, starts_with,
}
use codesensei.Common.Dict.{get}
use codesensei.Review.Temporal.{Clone, usable, unsupported, clone_raises}

-- A directory's name and the time it was last touched.
abbrev pub Cache : Type 0
Cache = List (Text × ℕ)

abbrev pub max_cached_repos : ℕ
max_cached_repos = 5

abbrev pub stale_clone : ℕ
stale_clone = 3600

-- The least recently touched directories go until no more than the limit are left; what is listed
-- in the order of the times is the same set of directories.
unfoldable pub evict_if_needed : Cache → Cache
evict_if_needed cache =
    if leb (length cache) max_cached_repos
    then cache
    else drop (length cache - max_cached_repos) (sort (λ (e : Text × ℕ). e.1) cache)

-- How `git clone` ends: `fails` is a timeout, an exit code or an `OSError`.
pub data CloneEnd : Type 0 where
  clones fails raises : CloneEnd

abbrev pub is_https_source : Text → Bool
unfolding starts_with
is_https_source source =
    starts_with source (codes "https://") || starts_with source (codes "http://")

-- What was run.
pub data GitCall : Type 0 where
  clone fetch : GitCall

pub record Reuse : Type 0 where
  pub calls : List GitCall
  pub end : Clone
  pub cache : Cache

-- `os.utime(cache_dir)`, whose failure is ignored where the directory is gone.
abbrev pub touch : Text → ℕ → Cache → Cache
touch digest now [] = []
touch digest now ((d, t) ∷ cache) =
    (d, if text_eq d digest then now else t) ∷ touch digest now cache

abbrev pub touched : ℕ → Text → List GitCall → Cache → Reuse
touched now digest calls cache = record {
  calls = calls;
  end = usable digest;
  cache = touch digest now cache;
}

-- A clone that is not there. What git made is touched now, and counts for the eviction.
abbrev pub cloned : ℕ → Text → CloneEnd → Cache → Reuse
cloned now digest clones cache =
    touched now digest (clone ∷ []) (evict_if_needed (cache ++ ((digest, now) ∷ [])))
cloned now digest fails cache = record { calls = clone ∷ []; end = unsupported; cache = cache }
cloned now digest raises cache = record { calls = clone ∷ []; end = clone_raises; cache = cache }

-- A clone that is there, last touched at a time; a failed fetch is ignored.
abbrev pub reused : ℕ → Text → ℕ → Cache → Reuse
reused now digest mtime cache =
    if ltb stale_clone (now - mtime)
    then touched now digest (fetch ∷ []) cache
    else touched now digest [] cache

abbrev pub with_dir : ℕ → Text → CloneEnd → Cache → Option ℕ → Reuse
with_dir now digest ends cache none = cloned now digest ends cache
with_dir now digest ends cache (some mtime) = reused now digest mtime cache

unfoldable pub clone_or_reuse : (Text → Text) → ℕ → Text → CloneEnd → Cache → Reuse
unfolding is_https_source evict_if_needed
clone_or_reuse sha1 now source ends cache =
    if not (is_https_source source)
    then record { calls = []; end = unsupported; cache = cache }
    else with_dir now (sha1 source) ends cache (get (sha1 source) cache)

-- The uses of one source, each at its time, and the calls of git they make.
unfoldable pub uses : (Text → Text) → Text → CloneEnd → List ℕ → Cache → List GitCall
unfolding clone_or_reuse
uses sha1 source ends [] cache = []
uses sha1 source ends (now ∷ times) cache =
    let r = clone_or_reuse sha1 now source ends cache in
    r.calls ++ uses sha1 source ends times r.cache
