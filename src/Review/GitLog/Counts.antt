-- ===== src/Review/GitLog/Counts.antt =====
-- The counts of a patch, block by block.
use codesensei.Common.{
  All-true, ℕ, zero, ◌+◌, ◌≡◌, refl, ap, ◌∙◌, Bool, true, false, not, ◌&&◌, Option, none, some,
  List, [], ◌∷◌, ◌++◌, Text, text_eq, if◌then◌else◌, All, All-append, All-map, All-zip, map,
  is_empty, splitlines, length, keep, arith,
}
use mathlib.Core.List.{append_assoc}
use codesensei.Common.Dict.{LacksKey, assign-new, set_default-new}
use codesensei.Review.GitLog.{
  is_sha, is_header, is_change, Scan, scan_line, scan_lines, flush, final_counts, count_hunk_lines,
}

-- A commit's hash and the lines of its patch, none of which is a hash.
abbrev pub Block : Type 0
Block = Text × List Text

abbrev pub IsBlock : Block → Type 0
IsBlock (sha, body) =
    (is_empty sha ≡ false) × (is_sha sha ≡ true) × All (λ l. is_sha l ≡ false) body

-- The lines that are added or removed.
abbrev pub is_changed_line : Text → Bool
is_changed_line l = not (is_empty l) && (not (is_header l) && is_change l)

abbrev pub block_lines : List Block → List Text
block_lines [] = []
block_lines ((sha, body) ∷ bs) = sha ∷ (body ++ block_lines bs)

abbrev pub block_count : Block → Text × ℕ
block_count (sha, body) = (sha, length (keep is_changed_line body))

-- No hash stands twice.
abbrev pub AreDistinct : List Block → Type 0
AreDistinct [] = Unit
AreDistinct (b ∷ bs) = All (λ c. text_eq b.0 c.0 ≡ false) bs × AreDistinct bs

change : Text → ℕ
change l = if is_changed_line l then 1 else 0

length-changed :
    (l : Text) (body : List Text)
    → length (keep is_changed_line (l ∷ body)) ≡ change l + length (keep is_changed_line body)
unfolding change
length-changed l body = ground arith

scan_line-body :
    (counts : List (Text × ℕ)) (sha : Text) (n : ℕ) (l : Text)
    → is_sha l ≡ false
    → scan_line (record { counts = counts; current_sha = some sha; current = n }) l
      ≡ record { counts = counts; current_sha = some sha; current = n + change l }
unfolding change
scan_line-body counts sha n l h = ground (arith, h)

-- The lines of a body add to the count of its block.
scan-body :
    (counts : List (Text × ℕ)) (sha : Text) (n : ℕ) (body rest : List Text)
    → All (λ l. is_sha l ≡ false) body
    → scan_lines (record { counts = counts; current_sha = some sha; current = n }) (body ++ rest)
      ≡ scan_lines
          (record {
            counts = counts;
            current_sha = some sha;
            current = n + length (keep is_changed_line body);
          })
          rest
scan-body counts sha n [] rest h =
    ap (λ m. scan_lines (record { counts = counts; current_sha = some sha; current = m }) rest)
      (omega arith)
scan-body counts sha n (l ∷ body) rest (h, hs) =
    ap (λ st. scan_lines st (body ++ rest)) (scan_line-body counts sha n l h)
    ∙ (scan-body counts sha (n + change l) body rest hs
        ∙ ap
            (λ m. scan_lines (record { counts = counts; current_sha = some sha; current = m }) rest)
            (omega (arith, length-changed l body)))

scan-sha :
    (counts : List (Text × ℕ)) (old : Option Text) (n : ℕ) (sha : Text)
    → is_empty sha ≡ false
    → is_sha sha ≡ true
    → scan_line (record { counts = counts; current_sha = old; current = n }) sha
      ≡ record { counts = flush old n counts; current_sha = some sha; current = zero }
scan-sha counts old n sha e s = rw (e, s) refl

abbrev final_of : Scan → List (Text × ℕ)
final_of st = final_counts st.current_sha st.current st.counts

-- From the middle of a block on.
scan-blocks :
    (done : List (Text × ℕ)) (sha : Text) (n : ℕ) (bs : List Block)
    → LacksKey sha done
    → All (λ b. text_eq sha b.0 ≡ false) bs
    → All (λ b. LacksKey b.0 done) bs
    → All IsBlock bs
    → AreDistinct bs
    → final_of (
        scan_lines (record { counts = done; current_sha = some sha; current = n }) (block_lines bs))
      ≡ done ++ ((sha, n) ∷ map block_count bs)
scan-blocks done sha n [] new _ _ _ _ = set_default-new sha n done new
scan-blocks done sha n ((sha', body) ∷ bs) new (other, others) (new', news) ((e, s, b), blocks)
      (d, ds) =
    ap (λ st. final_of (scan_lines st (body ++ block_lines bs)))
      (scan-sha done (some sha) n sha' e s
        ∙ ap (λ c. record { counts = c; current_sha = some sha'; current = 0 })
            (assign-new sha n done new))
    ∙ ap final_of (scan-body (done ++ ((sha, n) ∷ [])) sha' 0 body (block_lines bs) b)
    ∙ scan-blocks (done ++ ((sha, n) ∷ [])) sha' (0 + length (keep is_changed_line body)) bs
        (All-append _ done ((sha, n) ∷ []) new' (other, tt)) d
        (All-map bs (λ c h. All-append _ done ((sha, n) ∷ []) h.0 (h.1, tt))
          (All-zip (λ c. LacksKey c.0 done) (λ c. text_eq sha c.0 ≡ false) bs news others))
        blocks ds
    ∙ append_assoc done ((sha, n) ∷ []) _
    ∙ ap (λ m. done ++ ((sha, n) ∷ (sha', m) ∷ map block_count bs)) (omega arith)

scan-All :
    (bs : List Block)
    → All IsBlock bs
    → AreDistinct bs
    → final_of
        (scan_lines (record { counts = []; current_sha = none; current = 0 }) (block_lines bs))
      ≡ map block_count bs
scan-All [] _ _ = refl
scan-All ((sha, body) ∷ bs) ((e, s, b), blocks) (d, ds) =
    ap (λ st. final_of (scan_lines st (body ++ block_lines bs))) (scan-sha [] none 0 sha e s)
    ∙ ap final_of (scan-body [] sha 0 body (block_lines bs) b)
    ∙ scan-blocks [] sha (0 + length (keep is_changed_line body)) bs tt d (All-true _ bs (λ c. tt))
        blocks ds
    ∙ ap (λ m. (sha, m) ∷ map block_count bs) (omega arith)

-- Where the patch's lines are blocks, each a hash of its own and lines that are no hash, the counts
-- hold for every hash, in order, how many lines of its block are added or removed.
pub count_hunk_lines-blocks :
    (patch : Text) (bs : List Block)
    → splitlines patch ≡ block_lines bs
    → All IsBlock bs
    → AreDistinct bs
    → count_hunk_lines patch ≡ map block_count bs
unfolding count_hunk_lines
count_hunk_lines-blocks patch bs lines blocks distinct =
    ap (λ ls. final_of (scan_lines (record { counts = []; current_sha = none; current = 0 }) ls))
      lines
    ∙ scan-All bs blocks distinct
