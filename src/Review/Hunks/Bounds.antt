-- ===== src/Review/Hunks/Bounds.antt =====
-- The hunks that are extracted.
use codesensei.Common.{
  ℕ, ◌≤◌, ◌≡◌, refl, inl, inr, false, ◌||◌, Option, none, some, List, [], ◌∷◌, ◌++◌, Text, text_eq,
  leb, length, is_empty, splitlines, All, All-append, Bool-cases, arith,
}
use codesensei.Common.Options.{◌>>=◌, Holds, HasValue, HasValue-bind}
use codesensei.Common.Digits.{Unicode, parse_nat}
use codesensei.Review.Windows.{Hunk}
use codesensei.Review.Hunks.Numbers.{AreGroups, IsSizeIn, match_hunk-AreGroups, parse_nat-AreDigits}
use codesensei.Review.Hunks.{
  match_hunk, match_file, Extract, add_hunk, size_of, with_hunk, hunk_line, body_line, extract_file,
  extract_line, extract_lines, extract_rhs_hunks,
}

-- A hunk of at least one line, counted from 1; a file has at least one hunk.
abbrev pub IsHunk : Hunk → Type 0
IsHunk h = (1 ≤ h.0) × (1 ≤ h.1)

abbrev pub AreHunks : List (Text × List Hunk) → Type 0
AreHunks = All (λ e. (is_empty e.1 ≡ false) × All IsHunk e.1)

abbrev HasHunks : Option Extract → Type 0
HasHunks = HasValue (λ st. AreHunks st.out)

is_empty-snoc : (hs : List Hunk) (h : Hunk) → is_empty (hs ++ (h ∷ [])) ≡ false
is_empty-snoc [] h = refl
is_empty-snoc (x ∷ hs) h = refl

AreHunks-add_hunk :
    (path : Text) (h : Hunk) (out : List (Text × List Hunk))
    → IsHunk h
    → AreHunks out
    → AreHunks (add_hunk path h out)
AreHunks-add_hunk path h [] p k = ((refl, (p, tt)), tt)
AreHunks-add_hunk path h ((j, hs) ∷ out) p ((filled, all), ks) =
    elim (Bool-cases (text_eq j path)) [
      | inl same ↦ rw same ((is_empty-snoc hs h, All-append IsHunk hs (h ∷ []) all (p, tt)), ks)
      | inr other ↦ rw other ((filled, all), AreHunks-add_hunk path h out p ks)
    ]

positive : (n m : ℕ) → (leb n 0 || leb m 0) ≡ false → IsHunk (n, m)
positive n m h = ground (arith, h)

AreHunks-with_hunk :
    (st : Extract) (path : Text) (n m : ℕ) → AreHunks st.out → AreHunks (with_hunk st path n m).out
AreHunks-with_hunk st path n m h = elim (Bool-cases (leb n 0 || leb m 0)) [
  | inl bad ↦ rw bad h
  | inr good ↦ rw good (AreHunks-add_hunk path (n, m) st.out (positive n m good) h)
]

module _ (u : Unicode) (st : Extract) (h : AreHunks st.out) where
  with_numbers :
      (path : Text) (n m : Option ℕ)
      → HasValue (λ n. Unit {0}) n
      → HasValue (λ n. Unit {0}) m
      → HasHunks (do n' ← n; m' ← m; some (with_hunk st path n' m'))
  with_numbers path none m p q = elim p [ ]
  with_numbers path (some n) none p q = elim q [ ]
  with_numbers path (some n) (some m) p q = AreHunks-with_hunk st path n m h

  size_of-HasValue : (o : Option Text) → IsSizeIn u 4300 o → HasValue (λ n. Unit {0}) (size_of u o)
  size_of-HasValue none k = tt
  size_of-HasValue (some s) k = parse_nat-AreDigits u s k

  HasHunks-hunk_line :
      (path : Text) (g : Option (Text × Option Text))
      → Holds (AreGroups u 4300) g
      → HasHunks (hunk_line u st path g)
  HasHunks-hunk_line path none k = h
  HasHunks-hunk_line path (some (start, size)) (k, l) =
      with_numbers path (parse_nat u start) (size_of u size) (parse_nat-AreDigits u start k)
        (size_of-HasValue size l)

  HasHunks-body_line :
      (raw : Text) (path : Option Text) → length raw ≤ 4300 → HasHunks (body_line u st raw path)
  HasHunks-body_line raw none k = h
  HasHunks-body_line raw (some path) k =
      HasHunks-hunk_line path (match_hunk u raw) (match_hunk-AreGroups u raw 4300 k)

  HasHunks-extract_file :
      (raw : Text) (path : Option Text) → length raw ≤ 4300 → HasHunks (extract_file u st raw path)
  HasHunks-extract_file raw none k = HasHunks-body_line raw st.current_file k
  HasHunks-extract_file raw (some path) k = h

  HasHunks-extract_line : (raw : Text) → length raw ≤ 4300 → HasHunks (extract_line u st raw)
  unfolding extract_line
  HasHunks-extract_line raw k = HasHunks-extract_file raw (match_file raw) k

HasHunks-extract_lines :
    (u : Unicode) (lines : List Text) (st : Extract)
    → All (λ raw. length raw ≤ 4300) lines
    → AreHunks st.out
    → HasHunks (extract_lines u st lines)
unfolding extract_lines
HasHunks-extract_lines u [] st k h = h
HasHunks-extract_lines u (raw ∷ lines) st (k, ks) h =
    HasValue-bind (λ st'. AreHunks st'.out) (λ st'. AreHunks st'.out) (extract_line u st raw)
      (λ st'. extract_lines u st' lines) (λ st' h'. HasHunks-extract_lines u lines st' ks h')
      (HasHunks-extract_line u st h raw k)

-- Of a diff whose lines have at most 4300 characters the hunks are extracted without an exception;
-- every file among them has at least one hunk, and every hunk starts at line 1 or later and has at
-- least one line.
pub extract_rhs_hunks-AreHunks :
    (u : Unicode) (diff : Text)
    → All (λ raw. length raw ≤ 4300) (splitlines diff)
    → HasValue AreHunks (extract_rhs_hunks u diff)
unfolding extract_rhs_hunks
extract_rhs_hunks-AreHunks u diff short =
    HasValue-bind (λ st. AreHunks st.out) AreHunks
      (extract_lines u (record { out = []; current_file = none }) (splitlines diff))
      (λ st. some st.out) (λ st h. h)
      (HasHunks-extract_lines u (splitlines diff) (record { out = []; current_file = none }) short
        tt)
