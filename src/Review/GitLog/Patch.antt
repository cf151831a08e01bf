-- ===== src/Review/GitLog/Patch.antt =====
-- The patches that git prints, and the counts of their lines.
use codesensei.Common.{
  ℕ, suc, ◌≡◌, refl, ap, ◌∙◌, Bool, true, false, not, ◌&&◌, List, [], ◌∷◌, ◌++◌, Text, codes, All,
  map, length, keep, is_empty, splitlines, starts_with, ◌==◌,
}
use codesensei.Review.GitLog.{is_sha, is_header, is_change, count_hunk_lines}
use codesensei.Review.GitLog.Counts.{
  Block, IsBlock, is_changed_line, block_lines, block_count, AreDistinct, count_hunk_lines-blocks,
}

-- A line of a patch without context: a line added or removed, with its text; the names of the two
-- files; or any other line, as the header of a file or of a hunk, or an empty one.
pub data PatchLine : Type 0 where
  added removed old_file new_file other : Text → PatchLine

abbrev pub printed : PatchLine → Text
printed (added s) = b'+' ∷ s
printed (removed s) = b'-' ∷ s
printed (old_file s) = codes "--- " ++ s
printed (new_file s) = codes "+++ " ++ s
printed (other s) = s

abbrev pub IsUnmarked : Text → Type 0
IsUnmarked [] = Unit
IsUnmarked (c ∷ s) = ((c == b'+') ≡ false) × ((c == b'-') ≡ false)

-- No added text starts with "++", no removed one with "--", and no other line with either mark.
abbrev pub IsPrinted : PatchLine → Type 0
IsPrinted (added s) = starts_with s (codes "++") ≡ false
IsPrinted (removed s) = starts_with s (codes "--") ≡ false
IsPrinted (old_file s) = Unit
IsPrinted (new_file s) = Unit
IsPrinted (other s) = IsUnmarked s × (is_sha s ≡ false)

-- How many lines are added or removed.
abbrev pub changes : List PatchLine → ℕ
changes [] = 0
changes (added s ∷ ls) = suc (changes ls)
changes (removed s ∷ ls) = suc (changes ls)
changes (old_file s ∷ ls) = changes ls
changes (new_file s ∷ ls) = changes ls
changes (other s ∷ ls) = changes ls

-- A commit's hash and its patch.
abbrev pub Commit : Type 0
Commit = Text × List PatchLine

abbrev pub IsCommit : Commit → Type 0
IsCommit (sha, ls) = (is_empty sha ≡ false) × (is_sha sha ≡ true) × All IsPrinted ls

abbrev pub block_of : Commit → Block
block_of (sha, ls) = (sha, map printed ls)

abbrev pub commit_count : Commit → Text × ℕ
commit_count (sha, ls) = (sha, changes ls)

added-is_changed :
    (s : Text) → starts_with s (codes "++") ≡ false → is_changed_line (b'+' ∷ s) ≡ true
unfolding is_header is_change starts_with
added-is_changed s h = rw h refl

removed-is_changed :
    (s : Text) → starts_with s (codes "--") ≡ false → is_changed_line (b'-' ∷ s) ≡ true
unfolding is_header is_change starts_with
removed-is_changed s h = rw h refl

old_file-is_changed : (s : Text) → is_changed_line (codes "--- " ++ s) ≡ false
unfolding is_header is_change starts_with
old_file-is_changed s = refl

new_file-is_changed : (s : Text) → is_changed_line (codes "+++ " ++ s) ≡ false
unfolding is_header is_change starts_with
new_file-is_changed s = refl

and_false : (b : Bool) → b && false ≡ false
and_false true = refl
and_false false = refl

other-is_changed : (s : Text) → IsUnmarked s → is_changed_line s ≡ false
unfolding is_change starts_with
other-is_changed [] h = refl
other-is_changed (c ∷ s) (plus, minus) = rw (plus, minus) (and_false (not (is_header (c ∷ s))))

length-changed :
    (ls : List PatchLine)
    → All IsPrinted ls
    → length (keep is_changed_line (map printed ls)) ≡ changes ls
length-changed [] h = refl
length-changed (added s ∷ ls) (h, hs) = rw (added-is_changed s h) (ap suc (length-changed ls hs))
length-changed (removed s ∷ ls) (h, hs) =
    rw (removed-is_changed s h) (ap suc (length-changed ls hs))
length-changed (old_file s ∷ ls) (h, hs) = rw (old_file-is_changed s) (length-changed ls hs)
length-changed (new_file s ∷ ls) (h, hs) = rw (new_file-is_changed s) (length-changed ls hs)
length-changed (other s ∷ ls) (h, hs) = rw (other-is_changed s h.0) (length-changed ls hs)

printed-is_sha : (l : PatchLine) → IsPrinted l → is_sha (printed l) ≡ false
unfolding is_sha
printed-is_sha (added s) h = and_false _
printed-is_sha (removed s) h = and_false _
printed-is_sha (old_file s) h = and_false _
printed-is_sha (new_file s) h = and_false _
printed-is_sha (other s) h = h.1

All-printed :
    (ls : List PatchLine) → All IsPrinted ls → All (λ l. is_sha l ≡ false) (map printed ls)
All-printed [] h = tt
All-printed (l ∷ ls) (h, hs) = (printed-is_sha l h, All-printed ls hs)

All-block_of : (cs : List Commit) → All IsCommit cs → All IsBlock (map block_of cs)
All-block_of [] h = tt
All-block_of ((sha, ls) ∷ cs) ((e, s, h), hs) = ((e, s, All-printed ls h), All-block_of cs hs)

block_count-commits :
    (cs : List Commit) → All IsCommit cs → map block_count (map block_of cs) ≡ map commit_count cs
block_count-commits [] h = refl
block_count-commits ((sha, ls) ∷ cs) ((e, s, h), hs) =
    ap (λ n. (sha, n) ∷ map block_count (map block_of cs)) (length-changed ls h)
    ∙ ap (λ r. (sha, changes ls) ∷ r) (block_count-commits cs hs)

-- Where the lines of git's output are those of commits, each the commit's hash, which no two share,
-- and its patch, in which no added text starts with "++", no removed text with "--", and no other
-- line is a hash or starts with either mark: the counts hold for every hash, in order, how many
-- lines its patch adds or removes.
pub count_hunk_lines-commits :
    (patch : Text) (cs : List Commit)
    → splitlines patch ≡ block_lines (map block_of cs)
    → All IsCommit cs
    → AreDistinct (map block_of cs)
    → count_hunk_lines patch ≡ map commit_count cs
count_hunk_lines-commits patch cs lines commits distinct =
    count_hunk_lines-blocks patch (map block_of cs) lines (All-block_of cs commits) distinct
    ∙ block_count-commits cs commits
