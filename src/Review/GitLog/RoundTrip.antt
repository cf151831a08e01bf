-- ===== src/Review/GitLog/RoundTrip.antt =====
-- The log that git prints for commits, read again.
use codesensei.Common.{
  ◌≡◌, refl, sym, ap, ◌∙◌, true, false, some, List, [], ◌∷◌, ◌++◌, Text, length, All, All-append,
  map, is_empty, is_space, is_break, has_text, join_lines, split_on, IsLine, Lacks, AreLines,
  splitlines-join_lines, split_on-append, split_on-whole, has_text-nonspace, arith, if◌then◌else◌,
  leb, take, none, ◌==◌, Bool-cases, inl, inr,
}
use codesensei.Review.Schema.{TemporalEntry, truncate}
use codesensei.Review.GitLog.{parse_log_records, parse_lines, line_entry, entry_of}

-- `%H%x09%h%x09%ae%x09%aI%x09%s` of a commit.
abbrev pub pretty : TemporalEntry → Text
pretty e =
    e.commit_sha
    ++ (9 ∷ (e.short_sha ++ (9 ∷ (e.author_email ++ (9 ∷ (e.author_date ++ (9 ∷ e.subject)))))))

-- A field holds no tab and no line boundary.
abbrev pub IsField : Text → Type 0
IsField s = IsLine s × Lacks 9 s

-- The commit's hash has 40 characters, none white space, and no count of lines is known.
abbrev pub IsCommit : TemporalEntry → Type 0
IsCommit e =
    (length e.commit_sha ≡ 40)
    × (e.hunk_lines_changed ≡ 0)
    × All (λ c. is_space c ≡ false) e.commit_sha
    × All IsField (e.commit_sha ∷ e.short_sha ∷ e.author_email ∷ e.author_date ∷ e.subject ∷ [])

-- Over 120 characters, the first 119 and an ellipsis.
abbrev pub shortened : Text → Text
shortened s = if leb (length s) 120 then s else take 119 s ++ (8230 ∷ [])

-- The commits whose abbreviated hash has 7 characters, with their subjects shortened.
abbrev pub read_back : List TemporalEntry → List TemporalEntry
read_back [] = []
read_back (e ∷ es) =
    let rest = read_back es in
    if length e.short_sha == 7 then record e { subject = shortened e.subject } ∷ rest else rest

split-pretty :
    (e : TemporalEntry)
    → All IsField (e.commit_sha ∷ e.short_sha ∷ e.author_email ∷ e.author_date ∷ e.subject ∷ [])
    → split_on 9 (pretty e)
      ≡ e.commit_sha ∷ e.short_sha ∷ e.author_email ∷ e.author_date ∷ e.subject ∷ []
split-pretty e (sha, (short, (email, (date, (subject, _))))) =
    rw
      (
        split_on-append 9 e.commit_sha
            (e.short_sha ++ (9 ∷ (e.author_email ++ (9 ∷ (e.author_date ++ (9 ∷ e.subject))))))
            sha.1,
        split_on-append 9 e.short_sha (e.author_email ++ (9 ∷ (e.author_date ++ (9 ∷ e.subject))))
            short.1,
        split_on-append 9 e.author_email (e.author_date ++ (9 ∷ e.subject)) email.1,
        split_on-append 9 e.author_date e.subject date.1,
        split_on-whole 9 e.subject subject.1,
      )
      refl

has_text-append :
    (s rest : Text) → length s ≡ 40 → All (λ c. is_space c ≡ false) s → has_text (s ++ rest) ≡ true
has_text-append [] rest e h = absurd (omega (arith, e))
has_text-append (c ∷ s) rest e h = has_text-nonspace c (s ++ rest) h.0

shortened-truncate : (s : Text) → truncate 120 s ≡ shortened s
shortened-truncate s = refl

entry_of-fields :
    (e : TemporalEntry)
    → length e.commit_sha ≡ 40
    → e.hunk_lines_changed ≡ 0
    → entry_of (e.commit_sha ∷ e.short_sha ∷ e.author_email ∷ e.author_date ∷ e.subject ∷ []) ≡ (
        if length e.short_sha == 7 then some (record e { subject = shortened e.subject }) else none)
entry_of-fields e a d = elim (Bool-cases (length e.short_sha == 7)) [
  | inl seven ↦
      rw (a, seven)
        (ap (λ n. some (record e { subject = truncate 120 e.subject; hunk_lines_changed = n }))
            (sym d)
          ∙ ap (λ s. some (record e { subject = s })) (shortened-truncate e.subject))
  | inr other ↦ rw (a, other) refl
]

line_entry-pretty :
    (e : TemporalEntry)
    → IsCommit e
    → line_entry (pretty e) ≡ (
        if length e.short_sha == 7 then some (record e { subject = shortened e.subject }) else none)
line_entry-pretty e (sha, changed, nonspace, fields) =
    rw (has_text-append e.commit_sha _ sha nonspace, split-pretty e fields)
      (entry_of-fields e sha changed)

tab-IsLine : is_break 9 ≡ false
unfolding is_break
tab-IsLine = refl

IsLine-tab : (front back : Text) → IsLine front → IsLine back → IsLine (front ++ (9 ∷ back))
IsLine-tab front back h k = All-append _ front (9 ∷ back) h (tab-IsLine, k)

not_empty-append : (s rest : Text) → length s ≡ 40 → is_empty (s ++ rest) ≡ false
not_empty-append [] rest e = absurd (omega (arith, e))
not_empty-append (c ∷ s) rest e = refl

IsLine-pretty : (e : TemporalEntry) → IsCommit e → (is_empty (pretty e) ≡ false) × IsLine (pretty e)
IsLine-pretty e (sha, _, _, (f1, (f2, (f3, (f4, (f5, _)))))) = (
  not_empty-append e.commit_sha _ sha,
  IsLine-tab e.commit_sha _ f1.0 (
      IsLine-tab e.short_sha _ f2.0
        (IsLine-tab e.author_email _ f3.0 (IsLine-tab e.author_date e.subject f4.0 f5.0))),
)

parse_lines-pretty :
    (es : List TemporalEntry) → All IsCommit es → parse_lines (map pretty es) ≡ read_back es
unfolding parse_lines
parse_lines-pretty [] h = refl
parse_lines-pretty (e ∷ es) (h, hs) = elim (Bool-cases (length e.short_sha == 7)) [
  | inl seven ↦
      rw (line_entry-pretty e h, seven)
        (ap (λ r. record e { subject = shortened e.subject } ∷ r) (parse_lines-pretty es hs))
  | inr other ↦ rw (line_entry-pretty e h, other) (parse_lines-pretty es hs)
]

AreLines-pretty : (es : List TemporalEntry) → All IsCommit es → AreLines (map pretty es)
AreLines-pretty [] h = tt
AreLines-pretty (e ∷ es) (h, hs) = (IsLine-pretty e h, AreLines-pretty es hs)

-- For commits whose fields hold no tab or line boundary and whose hash has 40 characters, none white
-- space, the log that git prints for them is read back, in order and with no count of changed lines,
-- as those of them whose abbreviated hash has 7 characters; a subject of over 120 characters is cut
-- to its first 119 and an ellipsis.
pub parse_log_records-pretty :
    (es : List TemporalEntry)
    → All IsCommit es
    → parse_log_records (join_lines (map pretty es)) ≡ read_back es
unfolding parse_log_records
parse_log_records-pretty es h =
    ap parse_lines (splitlines-join_lines (map pretty es) (AreLines-pretty es h))
    ∙ parse_lines-pretty es h
