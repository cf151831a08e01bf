-- ===== src/History/Rows.antt =====
-- The histories that the three operations make.
use codesensei.Common.{
  All-zip, ℕ, suc, ◌+◌, ◌-◌, ◌<◌, ◌≢◌, ◌≡◌, refl, sym, ap, ◌∙◌, inl, inr, Bool, false, not, List,
  [], ◌∷◌, ◌++◌, ◌==◌, length, keep, map, All, All-map, All-append, All-keep, All-keep_with, Any,
  Any-keep, Any-append_right, keep-append, keep-keep, keep_none, keep-All, length-append,
  Bool-cases, ==_iff, arith,
}
use codesensei.Review.Schema.{Finding}
use codesensei.History.{
  NewRun, ReviewRun, ReviewFinding, History, has_id, delete_ids, finding_rows, insert_run,
  delete_run, prune_to_cap, oldest, history_max_rows,
}
use codesensei.History.Prune.{AreDistinct}

abbrev pub findings_of : ℕ → List ReviewFinding → List ReviewFinding
findings_of id = keep (λ f. f.owner == id)

-- The run has as many findings as its column says.
abbrev pub IsCounted : List ReviewFinding → ReviewRun → Type 0
IsCounted findings r = length (findings_of r.run_id findings) ≡ r.finding_count

abbrev pub HasOwner : List ReviewRun → ReviewFinding → Type 0
HasOwner runs f = Any (λ r. r.run_id ≡ f.owner) runs

-- Identifiers are distinct, and from the counter; no finding is an orphan; the counts are right.
abbrev pub IsHistory : History → Type 0
IsHistory h =
    AreDistinct h.runs
    × All (λ r. r.run_id < h.next_id) h.runs
    × All (HasOwner h.runs) h.findings
    × All (IsCounted h.findings) h.runs

abbrev pub empty : History
empty = record { runs = []; findings = []; next_id = 0 }

-- One operation.
pub data Step : History → History → Type 0 where
  inserts :
      (h : History) (now : ℕ) (fields : NewRun) (findings : List Finding)
      → Step h (insert_run h now fields findings).1
  deletes : (h : History) (id : ℕ) → Step h (delete_run id h).1
  prunes : (h : History) → Step h (prune_to_cap h).1

pub data Reachable : History → Type 0 where
  start : Reachable empty
  then_step : (h h' : History) → Reachable h → Step h h' → Reachable h'

AreDistinct-keep :
    (p : ReviewRun → Bool) (rs : List ReviewRun) → AreDistinct rs → AreDistinct (keep p rs)
AreDistinct-keep p [] h = tt
AreDistinct-keep p (r ∷ rs) (h, hs) = elim (Bool-cases (p r)) [
  | inl kept ↦ rw kept (All-keep (λ q. r.run_id ≢ q.run_id) p rs h, AreDistinct-keep p rs hs)
  | inr left ↦ rw left (AreDistinct-keep p rs hs)
]

delete_ids-IsHistory : (ids : List ℕ) (h : History) → IsHistory h → IsHistory (delete_ids ids h)
delete_ids-IsHistory ids h (distinct, bound, owned, counted) = (
  AreDistinct-keep (λ r. stays r.run_id) h.runs distinct,
  All-keep (λ r. r.run_id < h.next_id) (λ r. stays r.run_id) h.runs bound,
  All-keep_with (λ f. stays f.owner) h.findings
      (λ f kept has. Any-keep (λ r. stays r.run_id) h.runs (λ r e. ap stays e ∙ kept) has) owned,
  All-keep_with (λ r. stays r.run_id) h.runs
      (λ r kept count.
        ap length (
          keep-keep (λ f. stays f.owner) (λ f. f.owner == r.run_id) h.findings
            (λ f e. ap stays ((==_iff f.owner r.run_id).0 e) ∙ kept))
        ∙ count)
      counted,
)
  where
    stays : ℕ → Bool
    stays id = not (has_id ids id)

delete_run-IsHistory : (id : ℕ) (h : History) → IsHistory h → IsHistory (delete_run id h).1
unfolding delete_run
delete_run-IsHistory id h ok = delete_ids-IsHistory (id ∷ []) h ok

prune_to_cap-IsHistory : (h : History) → IsHistory h → IsHistory (prune_to_cap h).1
unfolding prune_to_cap
prune_to_cap-IsHistory h ok = elim (Bool-cases (length h.runs - history_max_rows == 0)) [
  | inl none_over ↦ rw none_over ok
  | inr some_over ↦ rw some_over (
      delete_ids-IsHistory (map (λ r. r.run_id) (oldest (length h.runs - history_max_rows) h.runs))
        h ok)
]

AreDistinct-snoc :
    (rs : List ReviewRun) (new : ReviewRun)
    → All (λ r. r.run_id ≢ new.run_id) rs
    → AreDistinct rs
    → AreDistinct (rs ++ (new ∷ []))
AreDistinct-snoc [] new h k = (tt, tt)
AreDistinct-snoc (r ∷ rs) new (h, hs) (k, ks) =
    (All-append (λ q. r.run_id ≢ q.run_id) rs (new ∷ []) k (h, tt), AreDistinct-snoc rs new hs ks)

Any-append_left : {A : Type 0} (P : A → Type 0) (xs ys : List A) → Any P xs → Any P (xs ++ ys)
Any-append_left P [] ys h = elim h [ ]
Any-append_left P (x ∷ xs) ys (inl h) = inl h
Any-append_left P (x ∷ xs) ys (inr h) = inr (Any-append_left P xs ys h)

pub All-finding_rows :
    (P : ReviewFinding → Type 0) (owner position : ℕ) (fs : List Finding)
    → ((f : ReviewFinding) → f.owner ≡ owner → P f)
    → All P (finding_rows owner position fs)
All-finding_rows P owner position [] h = tt
All-finding_rows P owner position (f ∷ fs) h =
    (h _ refl, All-finding_rows P owner (suc position) fs h)

length-finding_rows :
    (owner position : ℕ) (fs : List Finding) → length (finding_rows owner position fs) ≡ length fs
length-finding_rows owner position [] = refl
length-finding_rows owner position (f ∷ fs) = ap suc (length-finding_rows owner (suc position) fs)

pub ==-false : (a b : ℕ) → a ≢ b → (a == b) ≡ false
==-false a b h = ground (arith, h)

-- An owner among the runs is an identifier that was given out.
pub owner-lt :
    (n : ℕ) (runs : List ReviewRun) (f : ReviewFinding)
    → All (λ r. r.run_id < n) runs
    → HasOwner runs f
    → f.owner < n
owner-lt n [] f b h = elim h [ ]
owner-lt n (r ∷ rs) f (b, bs) (inl e) = omega (arith, b, e)
owner-lt n (r ∷ rs) f (b, bs) (inr h) = owner-lt n rs f bs h

length-findings_of-append :
    (id : ℕ) (old new : List ReviewFinding) (n m : ℕ)
    → length (findings_of id old) ≡ n
    → length (findings_of id new) ≡ m
    → length (findings_of id (old ++ new)) ≡ n + m
length-findings_of-append id old new n m e d =
    ap length (keep-append (λ f. f.owner == id) old new)
    ∙ length-append (findings_of id old) (findings_of id new)
    ∙ omega (arith, e, d)

-- The rows of a new run are none of another's, and all its own.
pub length-findings_of-other :
    (id owner : ℕ) (fs : List Finding)
    → owner ≢ id
    → length (findings_of id (finding_rows owner 0 fs)) ≡ 0
length-findings_of-other id owner fs h = ap length (
    keep_none (λ f. f.owner == id) (finding_rows owner 0 fs)
      (All-finding_rows _ owner 0 fs (λ f e. ==-false f.owner id (λ d. h (sym e ∙ d)))))

length-findings_of-own :
    (owner : ℕ) (fs : List Finding)
    → length (findings_of owner (finding_rows owner 0 fs)) ≡ length fs
length-findings_of-own owner fs =
    ap length (
      keep-All (λ f. f.owner == owner) (finding_rows owner 0 fs)
        (All-finding_rows _ owner 0 fs (λ f e. (==_iff f.owner owner).1 e)))
    ∙ length-finding_rows owner 0 fs

-- Nobody has the next identifier's findings yet.
length-findings_of-next :
    (h : History)
    → All (λ r. r.run_id < h.next_id) h.runs
    → All (HasOwner h.runs) h.findings
    → length (findings_of h.next_id h.findings) ≡ 0
length-findings_of-next h bound owned = ap length (
    keep_none (λ f. f.owner == h.next_id) h.findings
      (All-map h.findings
        (λ f o.
          ==-false f.owner h.next_id (λ e. omega (arith, e, owner-lt h.next_id h.runs f bound o)))
        owned))

pub insert_run-IsHistory :
    (h : History) (now : ℕ) (fields : NewRun) (findings : List Finding)
    → IsHistory h
    → IsHistory (insert_run h now fields findings).1
unfolding insert_run
insert_run-IsHistory h now fields findings (distinct, bound, owned, counted) = (
  AreDistinct-snoc h.runs new (All-map h.runs (λ r b e. omega (arith, b, e)) bound) distinct,
  All-append (λ r. r.run_id < suc h.next_id) h.runs (new ∷ [])
      (All-map h.runs (λ r b. omega (arith, b)) bound) (omega arith, tt),
  All-append (HasOwner (h.runs ++ (new ∷ []))) h.findings rows
      (All-map h.findings (λ f. Any-append_left _ h.runs (new ∷ [])) owned)
      (All-finding_rows _ h.next_id 0 findings
        (λ f e. Any-append_right _ h.runs (new ∷ []) (inl (sym e)))),
  All-append (IsCounted (h.findings ++ rows)) h.runs (new ∷ [])
      (All-map h.runs still_counted (All-zip _ _ h.runs bound counted)) (new_counted, tt),
)
  where
    new : ReviewRun
    new = (insert_run h now fields findings).0

    rows : List ReviewFinding
    rows = finding_rows h.next_id 0 findings

    still_counted :
        (r : ReviewRun)
        → (r.run_id < h.next_id) × IsCounted h.findings r
        → IsCounted (h.findings ++ rows) r
    still_counted r (b, c) =
        length-findings_of-append r.run_id h.findings rows r.finding_count 0 c
          (length-findings_of-other r.run_id h.next_id findings (λ e. omega (arith, e, b)))
        ∙ omega arith

    new_counted : IsCounted (h.findings ++ rows) new
    new_counted =
        length-findings_of-append h.next_id h.findings rows 0 (length findings)
          (length-findings_of-next h bound owned) (length-findings_of-own h.next_id findings)
        ∙ omega arith

Step-IsHistory : {h h' : History} → Step h h' → IsHistory h → IsHistory h'
Step-IsHistory (inserts h now fields findings) ok = insert_run-IsHistory h now fields findings ok
Step-IsHistory (deletes h id) ok = delete_run-IsHistory id h ok
Step-IsHistory (prunes h) ok = prune_to_cap-IsHistory h ok

-- In every history that insertions, deletions and prunes make out of the empty one, the runs'
-- identifiers are distinct and were given out by the counter, every finding belongs to a run that
-- is there, and every run has as many findings as its column `finding_count` says.
pub Reachable-IsHistory : (h : History) → Reachable h → IsHistory h
Reachable-IsHistory _ start = (tt, tt, tt, tt)
Reachable-IsHistory _ (then_step h h' reached step) =
    Step-IsHistory step (Reachable-IsHistory h reached)
