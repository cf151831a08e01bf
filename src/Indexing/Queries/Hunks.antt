-- ===== src/Indexing/Queries/Hunks.antt =====
-- The queries of a diff that is made of hunks.
use codesensei.Common.{
  ℕ, ◌≡◌, refl, sym, ap, ◌∙◌, Bool, true, false, List, [], ◌∷◌, ◌++◌, Text, ◌==◌, All, All-map,
  is_break, starts_with, all, inl, inr, if◌then◌else◌, Bool-cases, join_lines, splitlines,
  splitlines-append, IsLine, drop, arith,
}
use mathlib.Core.List.{append_assoc, append-nil}
use codesensei.Common.Digits.{Unicode}
use codesensei.Indexing.Queries.Blank.{is_blank, window-blank}
use codesensei.Indexing.Queries.{
  is_hunk_start, cut, new_lines, window, with_window, queries_of, derive_queries,
}

pub data Mark : Type 0 where
  added unchanged removed : Mark

abbrev pub mark_char : Mark → ℕ
mark_char added = b'+'
mark_char unchanged = b' '
mark_char removed = b'-'

abbrev pub marked : Mark × Text → Text
marked (m, s) = mark_char m ∷ s

-- A header, and the lines below it.
pub record HunkText : Type 0 where
  pub header : Text
  pub lines : List (Mark × Text)

-- Lines in front of a text, each ended by a line feed.
abbrev pub put_lines : List Text → Text → Text
put_lines [] s = s
put_lines (l ∷ ls) s = l ++ (10 ∷ put_lines ls s)

abbrev pub marked_lines : List (Mark × Text) → List Text
marked_lines [] = []
marked_lines (l ∷ ls) = marked l ∷ marked_lines ls

abbrev pub hunks_text : List HunkText → Text
hunks_text [] = []
hunks_text (h ∷ hs) = h.header ++ (10 ∷ put_lines (marked_lines h.lines) (hunks_text hs))

abbrev pub new_side : List (Mark × Text) → List Text
new_side [] = []
new_side ((added, s) ∷ ls) = s ∷ new_side ls
new_side ((unchanged, s) ∷ ls) = s ∷ new_side ls
new_side ((removed, s) ∷ ls) = new_side ls

-- A query for every hunk whose new side has a line that is not all white space.
abbrev pub hunk_queries : List HunkText → List Text
hunk_queries [] = []
hunk_queries (h ∷ hs) =
    let rest = hunk_queries hs in
    if all is_blank (new_side h.lines) then rest else join_lines (new_side h.lines) ∷ rest

-- A line that no hunk can start with, and a line that one starts with.
abbrev pub IsOther : Text → Type 0
IsOther [] = Unit
IsOther (c ∷ s) = ((c == b'@') ≡ false) × IsLine (c ∷ s)

abbrev pub IsHeader : Unicode → Text → Type 0
IsHeader u h = IsLine h × ((s : Text) → is_hunk_start u (h ++ (10 ∷ s)) ≡ true)

abbrev pub IsHunk : Unicode → HunkText → Type 0
IsHunk u h = IsHeader u h.header × All (λ (l : Mark × Text). IsLine l.1) h.lines

not_lf : (c : ℕ) → is_break c ≡ false → (c == 10) ≡ false
unfolding is_break
not_lf c h = ground arith

abbrev before : Text → Text × List Text → Text × List Text
before l (front, sections) = (l ++ front, sections)

cut-lf : (u : Unicode) (b : Bool) (s : Text) → cut u b (10 ∷ s) ≡ before (10 ∷ []) (cut u true s)
unfolding cut is_hunk_start starts_with
cut-lf u true s = refl
cut-lf u false s = refl

cut-inside :
    (u : Unicode) (l s : Text)
    → IsLine l
    → cut u false (l ++ (10 ∷ s)) ≡ before (l ++ (10 ∷ [])) (cut u true s)
unfolding cut
cut-inside u [] s h = cut-lf u false s
cut-inside u (c ∷ l) s (h, hs) = rw (not_lf c h) (ap (before (c ∷ [])) (cut-inside u l s hs))

no_start : (u : Unicode) (c : ℕ) (s : Text) → (c == b'@') ≡ false → is_hunk_start u (c ∷ s) ≡ false
unfolding is_hunk_start starts_with
no_start u c s h = rw h refl

cut-other :
    (u : Unicode) (l s : Text)
    → IsOther l
    → cut u true (l ++ (10 ∷ s)) ≡ before (l ++ (10 ∷ [])) (cut u true s)
unfolding cut
cut-other u [] s h = cut-lf u true s
cut-other u (c ∷ l) s (other, (h, hs)) =
    rw (no_start u c (l ++ (10 ∷ s)) other, not_lf c h) (ap (before (c ∷ [])) (cut-inside u l s hs))

abbrev opened : Text → Text × List Text → Text × List Text
opened l (front, sections) = ([], (l ++ front) ∷ sections)

cut-header :
    (u : Unicode) (l s : Text)
    → IsHeader u l
    → cut u true (l ++ (10 ∷ s)) ≡ opened (l ++ (10 ∷ [])) (cut u true s)
unfolding cut
cut-header u [] s (line, starts) = cc (starts s, no_start u 10 s refl)
cut-header u (c ∷ l) s ((h, hs), starts) =
    rw (starts s, not_lf c h) (ap (opened (c ∷ [])) (cut-inside u l s hs))

line-append : (l front : Text) → (l ++ (10 ∷ [])) ++ front ≡ l ++ (10 ∷ front)
line-append l front = append_assoc l (10 ∷ []) front

cut-put_lines :
    (u : Unicode) (ls : List Text) (s : Text)
    → All IsOther ls
    → cut u true (put_lines ls s) ≡ before (put_lines ls []) (cut u true s)
cut-put_lines u [] s h = refl
cut-put_lines u (l ∷ ls) s (h, hs) =
    cut-other u l (put_lines ls s) h
    ∙ ap (before (l ++ (10 ∷ []))) (cut-put_lines u ls s hs)
    ∙ ap (λ t. (t, (cut u true s).1)) (rest (cut u true s).0)
  where
    rest :
        (t : Text) → (l ++ (10 ∷ [])) ++ (put_lines ls [] ++ t) ≡ (l ++ (10 ∷ put_lines ls [])) ++ t
    rest t =
        sym (append_assoc (l ++ (10 ∷ [])) (put_lines ls []) t)
        ∙ ap (λ r. r ++ t) (line-append l (put_lines ls []))

abbrev section_of : HunkText → Text
section_of h = h.header ++ (10 ∷ put_lines (marked_lines h.lines) [])

abbrev sections_of : List HunkText → List Text
sections_of [] = []
sections_of (h ∷ hs) = section_of h ∷ sections_of hs

marked-IsOther :
    (ls : List (Mark × Text))
    → All (λ (l : Mark × Text). IsLine l.1) ls
    → All IsOther (marked_lines ls)
unfolding is_break
marked-IsOther [] h = tt
marked-IsOther ((added, s) ∷ ls) (h, hs) = ((refl, (refl, h)), marked-IsOther ls hs)
marked-IsOther ((unchanged, s) ∷ ls) (h, hs) = ((refl, (refl, h)), marked-IsOther ls hs)
marked-IsOther ((removed, s) ∷ ls) (h, hs) = ((refl, (refl, h)), marked-IsOther ls hs)

cut-hunks_text :
    (u : Unicode) (hs : List HunkText)
    → All (IsHunk u) hs
    → cut u true (hunks_text hs) ≡ ([], sections_of hs)
unfolding cut
cut-hunks_text u [] h = refl
cut-hunks_text u (h ∷ hs) ((header, lines), rest) =
    let body : List Text = marked_lines h.lines in
    cut-header u h.header (put_lines body (hunks_text hs)) header
    ∙ ap (opened (h.header ++ (10 ∷ []))) (
        cut-put_lines u body (hunks_text hs) (marked-IsOther h.lines lines)
        ∙ ap (before (put_lines body [])) (cut-hunks_text u hs rest))
    ∙ ap (λ (t : Text). ([], t ∷ sections_of hs))
        (ap (λ t. (h.header ++ (10 ∷ [])) ++ t) (append-nil (put_lines body []))
          ∙ line-append h.header (put_lines body []))

splitlines-put_lines : (ls : List Text) → All IsLine ls → splitlines (put_lines ls []) ≡ ls
unfolding splitlines
splitlines-put_lines [] h = refl
splitlines-put_lines (l ∷ ls) (h, hs) =
    splitlines-append l (put_lines ls []) h ∙ ap (λ r. l ∷ r) (splitlines-put_lines ls hs)

other-IsLine : (l : Text) → IsOther l → IsLine l
other-IsLine [] h = tt
other-IsLine (c ∷ s) h = h.1

new_lines-marked : (ls : List (Mark × Text)) → new_lines (marked_lines ls) ≡ new_side ls
new_lines-marked [] = refl
new_lines-marked ((added, s) ∷ ls) = ap (λ r. s ∷ r) (new_lines-marked ls)
new_lines-marked ((unchanged, s) ∷ ls) = ap (λ r. s ∷ r) (new_lines-marked ls)
new_lines-marked ((removed, s) ∷ ls) = new_lines-marked ls

section-window :
    (u : Unicode) (h : HunkText)
    → IsHunk u h
    → window (new_lines (drop 1 (splitlines (section_of h)))) ≡ window (new_side h.lines)
section-window u h (header, lines) =
    ap (λ ls. window (new_lines (drop 1 ls)))
      (splitlines-append h.header (put_lines (marked_lines h.lines) []) header.0)
    ∙ ap (λ ls. window (new_lines ls))
        (splitlines-put_lines (marked_lines h.lines)
          (All-map (marked_lines h.lines) other-IsLine (marked-IsOther h.lines lines)))
    ∙ ap window (new_lines-marked h.lines)

with_window-blank :
    (ls : List Text) (rest : List Text)
    → with_window (window ls) rest ≡ (if all is_blank ls then rest else join_lines ls ∷ rest)
with_window-blank ls rest =
    ap (λ w. with_window w rest) (window-blank ls)
    ∙ elim (Bool-cases (all is_blank ls)) [ inl blank ↦ rw blank refl | inr text ↦ rw text refl ]

queries_of-sections :
    (u : Unicode) (hs : List HunkText)
    → All (IsHunk u) hs
    → queries_of (sections_of hs) ≡ hunk_queries hs
unfolding queries_of
queries_of-sections u [] h = refl
queries_of-sections u (h ∷ hs) (k, ks) =
    ap (λ w. with_window w (queries_of (sections_of hs))) (section-window u h k)
    ∙ ap (with_window (window (new_side h.lines))) (queries_of-sections u hs ks)
    ∙ with_window-blank (new_side h.lines) (hunk_queries hs)

-- Of a diff whose first lines start with no "@", followed by hunks of a header and marked lines, the
-- queries are, for every hunk in order whose new side has a line that is not all white space, the
-- lines of its new side without their marks, joined by line feeds.
pub derive_queries-hunks :
    (u : Unicode) (front : List Text) (hs : List HunkText)
    → All IsOther front
    → All (IsHunk u) hs
    → derive_queries u (put_lines front (hunks_text hs)) ≡ hunk_queries hs
unfolding derive_queries
derive_queries-hunks u front hs other hunks =
    ap (λ r. queries_of r.1)
      (cut-put_lines u front (hunks_text hs) other
        ∙ ap (before (put_lines front [])) (cut-hunks_text u hs hunks))
    ∙ queries_of-sections u hs hunks
