-- ===== src/History/RoundTrip.antt =====
-- A run that was inserted, fetched again.
use codesensei.Common.{
  Option, none, Bool, false, not, any, is_empty, length, Text, codes, sym, ℕ, suc, ◌≤◌, ◌≡◌, refl,
  ap, ◌∙◌, some, List, [], ◌∷◌, ◌++◌, ◌==◌, keep, All, All-map, sort, IsSorted, sort-sorted,
  keep-append, keep_none, keep-All, ==_iff, arith,
}
use mathlib.Core.Path.{subst}
use codesensei.Common.Options.{HasValue}
use codesensei.Review.Schema.{
  Finding, Severity, blocker, major, minor, nit, severity_value, TemporalEntry,
}
use codesensei.History.{
  NewRun, ReviewFinding, History, ReviewRun, temporal_to_jsonb, is_temporal, finding_rows,
  insert_run, fetch_run, scalar_one,
}
use codesensei.History.Rows.{IsHistory, findings_of, All-finding_rows, owner-lt, ==-false}

abbrev positioned : List ReviewFinding → List ReviewFinding
positioned = sort (λ f. f.position)

finding_rows-later :
    (owner low position : ℕ) (fs : List Finding)
    → low ≤ position
    → All (λ f. low ≤ f.position) (finding_rows owner position fs)
finding_rows-later owner low position [] h = tt
finding_rows-later owner low position (f ∷ fs) h =
    (h, finding_rows-later owner low (suc position) fs (omega (arith, h)))

finding_rows-IsSorted :
    (owner position : ℕ) (fs : List Finding)
    → IsSorted (λ f. f.position) (finding_rows owner position fs)
finding_rows-IsSorted owner position [] = tt
finding_rows-IsSorted owner position (f ∷ fs) = (
  finding_rows-later owner position (suc position) fs (omega arith),
  finding_rows-IsSorted owner (suc position) fs,
)

module _ (h : History) (fields : NewRun) (findings : List Finding) (ok : IsHistory h) where
  no_run : keep (λ r. r.run_id == h.next_id) h.runs ≡ []
  no_run =
      keep_none (λ r. r.run_id == h.next_id) h.runs
        (All-map h.runs (λ r b. ==-false r.run_id h.next_id (λ e. omega (arith, e, b))) ok.1)

  no_finding : findings_of h.next_id h.findings ≡ []
  no_finding =
      keep_none (λ f. f.owner == h.next_id) h.findings
        (All-map h.findings
          (λ f o.
            ==-false f.owner h.next_id (λ e. omega (arith, e, owner-lt h.next_id h.runs f ok.1 o)))
          ok.2)

  new_run :
      (now : ℕ)
      → keep (λ r. r.run_id == h.next_id) (insert_run h now fields findings).1.runs
        ≡ (insert_run h now fields findings).0 ∷ []
  unfolding insert_run
  new_run now =
      keep-append (λ r. r.run_id == h.next_id) h.runs ((insert_run h now fields findings).0 ∷ [])
      ∙ rw (no_run, (==_iff h.next_id h.next_id).1 refl) refl

  new_findings :
      findings_of h.next_id (h.findings ++ finding_rows h.next_id 0 findings)
      ≡ finding_rows h.next_id 0 findings
  new_findings =
      keep-append (λ f. f.owner == h.next_id) h.findings (finding_rows h.next_id 0 findings)
      ∙ ap (λ fs. fs ++ findings_of h.next_id (finding_rows h.next_id 0 findings)) no_finding
      ∙ keep-All (λ f. f.owner == h.next_id) (finding_rows h.next_id 0 findings)
          (All-finding_rows _ h.next_id 0 findings (λ f e. (==_iff f.owner h.next_id).1 e))

-- The word of a severity.
abbrev pub IsWord : Severity → Text → Type 0
IsWord blocker t = t ≡ codes "blocker"
IsWord major t = t ≡ codes "major"
IsWord minor t = t ≡ codes "minor"
IsWord nit t = t ≡ codes "nit"

-- A history of no entries is stored as none.
abbrev pub IsStoredHistory : Option (List TemporalEntry) → Option (List TemporalEntry) → Type 0
IsStoredHistory none t = t ≡ none
IsStoredHistory (some []) t = t ≡ none
IsStoredHistory (some (e ∷ es)) t = t ≡ some (e ∷ es)

abbrev pub has_history : Finding → Bool
has_history f = elim f.temporal_context [ none ↦ false | some es ↦ not (is_empty es) ]

-- The row holds the finding.
abbrev pub IsRowOf : ℕ → ℕ → Finding → ReviewFinding → Type 0
IsRowOf owner position f row =
    (row.owner ≡ owner)
    × (row.position ≡ position)
    × (row.file ≡ f.file)
    × (row.line ≡ f.line)
    × IsWord f.severity row.severity
    × (row.message ≡ f.message)
    × (row.suggestion ≡ f.suggestion)
    × IsStoredHistory f.temporal_context row.temporal_context

abbrev pub AreRowsOf : ℕ → ℕ → List Finding → List ReviewFinding → Type 0
AreRowsOf owner position [] [] = Unit
AreRowsOf owner position [] (row ∷ rows) = ⊥
AreRowsOf owner position (f ∷ fs) [] = ⊥
AreRowsOf owner position (f ∷ fs) (row ∷ rows) =
    IsRowOf owner position f row × AreRowsOf owner (suc position) fs rows

-- The run holds what it was inserted with, and the rows hold its findings, in order.
abbrev pub IsRunWith : ℕ → ℕ → NewRun → List Finding → ReviewRun → Type 0
IsRunWith id now fields findings run =
    (run.run_id ≡ id)
    × (run.created_at ≡ now)
    × (run.fields ≡ fields)
    × (run.finding_count ≡ length findings)
    × (run.has_temporal ≡ any has_history findings)

abbrev pub IsStored : ℕ → ℕ → NewRun → List Finding → ReviewRun × List ReviewFinding → Type 0
IsStored id now fields findings (run, rows) =
    IsRunWith id now fields findings run × AreRowsOf id 0 findings rows

severity_value-IsWord : (s : Severity) → IsWord s (severity_value s)
severity_value-IsWord blocker = refl
severity_value-IsWord major = refl
severity_value-IsWord minor = refl
severity_value-IsWord nit = refl

temporal-IsStoredHistory :
    (o : Option (List TemporalEntry)) → IsStoredHistory o (temporal_to_jsonb o)
temporal-IsStoredHistory none = refl
temporal-IsStoredHistory (some []) = refl
temporal-IsStoredHistory (some (e ∷ es)) = refl

pub finding_rows-AreRowsOf :
    (owner position : ℕ) (fs : List Finding)
    → AreRowsOf owner position fs (finding_rows owner position fs)
finding_rows-AreRowsOf owner position [] = tt
finding_rows-AreRowsOf owner position (f ∷ fs) = (
  (
    refl,
    refl,
    refl,
    refl,
    severity_value-IsWord f.severity,
    refl,
    refl,
    temporal-IsStoredHistory f.temporal_context,
  ),
  finding_rows-AreRowsOf owner (suc position) fs,
)

any-has_history :
    (fs : List Finding) → any (λ f. is_temporal f.temporal_context) fs ≡ any has_history fs
any-has_history [] = refl
any-has_history (f ∷ fs) = rw (same f.temporal_context, any-has_history fs) refl
  where
    same :
        (o : Option (List TemporalEntry))
        → is_temporal o ≡ elim o [ none ↦ false | some es ↦ not (is_empty es) ]
    same none = refl
    same (some es) = refl

pub insert_run-IsRunWith :
    (h : History) (now : ℕ) (fields : NewRun) (findings : List Finding)
    → IsRunWith h.next_id now fields findings (insert_run h now fields findings).0
unfolding insert_run
insert_run-IsRunWith h now fields findings = (refl, refl, refl, refl, any-has_history findings)

fetch_run-inserted :
    (h : History) (now : ℕ) (fields : NewRun) (findings : List Finding)
    → IsHistory h
    → fetch_run (insert_run h now fields findings).1 h.next_id
      ≡ some ((insert_run h now fields findings).0, finding_rows h.next_id 0 findings)
unfolding fetch_run insert_run
fetch_run-inserted h now fields findings ok =
    ap
      (λ rs.
        scalar_one rs
          (positioned (findings_of h.next_id (h.findings ++ finding_rows h.next_id 0 findings))))
      (new_run h fields findings ok now)
    ∙ ap (λ fs. some ((insert_run h now fields findings).0, fs))
        (ap positioned (new_findings h fields findings ok)
          ∙ sort-sorted (λ f. f.position) (finding_rows h.next_id 0 findings)
              (finding_rows-IsSorted h.next_id 0 findings))

-- A run inserted into a history whose rows are sound is fetched by its identifier with the time and the
-- fields it was inserted with, the number of its findings and whether one has a history, and with a
-- row for each of its findings, in their order, that holds the finding's fields.
pub fetch_run-insert_run :
    (h : History) (now : ℕ) (fields : NewRun) (findings : List Finding)
    → IsHistory h
    → HasValue
        (IsStored h.next_id now fields findings)
        (fetch_run (insert_run h now fields findings).1 (insert_run h now fields findings).0.run_id)
fetch_run-insert_run h now fields findings ok =
    let run = insert_run-IsRunWith h now fields findings in
    subst (HasValue (IsStored h.next_id now fields findings))
      (sym (
        ap (fetch_run (insert_run h now fields findings).1) run.0
        ∙ fetch_run-inserted h now fields findings ok))
      (run, finding_rows-AreRowsOf h.next_id 0 findings)
