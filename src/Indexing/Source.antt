-- ===== src/Indexing/Source.antt =====
-- backend/src/codesensei/indexing/clone.py: `normalise_source`.
use codesensei.Common.{
  ℕ, false, ◌||◌, [], ◌∷◌, Text, codes, text_eq, ◌==◌, if◌then◌else◌, is_empty, strip, starts_with,
  length, take, drop, ◌-◌,
}
use codesensei.Indexing.Errors.{Outcome, ok, raised, index_error, invalid_input}
use codesensei.Indexing.Store.{SourceKind, https, local}

abbrev drop_last_slash : ℕ → Text → Text
drop_last_slash c [] = if c == b'/' then [] else c ∷ []
drop_last_slash c (d ∷ t) = c ∷ d ∷ t

-- `s.rstrip("/")`.
pub rstrip_slash : Text → Text
rstrip_slash [] = []
rstrip_slash (c ∷ s) = drop_last_slash c (rstrip_slash s)

-- `s[:-4]` if `s` ends with ".git".
pub without_git : Text → Text
unfolding text_eq
without_git s = if text_eq (drop (length s - 4) s) (codes ".git") then take (length s - 4) s else s

abbrev or_root : Text → Text
or_root [] = codes "/"
or_root (c ∷ s) = c ∷ s

unfoldable pub normalise_source : Text → Outcome (Text × SourceKind)
unfolding rstrip_slash without_git starts_with strip
normalise_source source =
    let s = strip source in
    if is_empty s
    then raised (index_error invalid_input false)
    else if starts_with s (codes "https://") || starts_with s (codes "http://")
    then ok (without_git (rstrip_slash s), https)
    else if starts_with s (codes "git@") || starts_with s (codes "ssh://")
    then raised (index_error invalid_input false)
    else if starts_with s (codes "/")
    then ok (or_root (rstrip_slash s), local)
    else raised (index_error invalid_input false)
