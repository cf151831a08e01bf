-- ===== src/Review/Pipeline/Context.antt =====
-- The context files of a result.
use codesensei.Common.{
  ◌≤◌, ◌≡◌, refl, sym, inl, inr, ◌⊎◌, true, false, List, [], ◌∷◌, ◌++◌, Text, text_eq, text_eq_iff,
  leb, any, length, length-append, All, All-map, All-append, Any-append_right, In, All-In, Pairs,
  Pairs-snoc, Bool-cases, arith, map,
}
use mathlib.Core.List.{append_assoc, append-nil}
use codesensei.Indexing.Retrieval.{RetrievedChunk}
use codesensei.Review.RunParts.{file_step, context_files_from}

abbrev pub paths_of : List RetrievedChunk → List Text
paths_of = map (λ c. c.file_path)

abbrev pub AreTwo : Text → Text → Type 0
AreTwo s t = text_eq s t ≡ false

-- At most ten of the paths, none twice; and all of them, if there are fewer than ten.
abbrev pub AreContext : List Text → List Text → Type 0
AreContext paths files =
    (length files ≤ 10)
    × Pairs AreTwo files
    × All (λ f. In f paths) files
    × ((10 ≤ length files) ⊎ All (λ p. In p files) paths)

any-In : (path : Text) (files : List Text) → any (text_eq path) files ≡ true → In path files
any-In path [] h = cc
any-In path (f ∷ files) h = elim (Bool-cases (text_eq path f)) [
  | inl same ↦ inl (sym ((text_eq_iff path f).0 same))
  | inr other ↦ inr (
      any-In path files
        (let rest : any (text_eq path) files ≡ true = ground (arith, h, other) in rest))
]

any-AreTwo :
    (path : Text) (files : List Text)
    → any (text_eq path) files ≡ false
    → All (λ f. AreTwo f path) files
any-AreTwo path [] h = tt
any-AreTwo path (f ∷ files) h = (
  ground (arith, h, text_eq_iff path f, text_eq_iff f path),
  any-AreTwo path files (let rest : any (text_eq path) files ≡ false = ground (arith, h) in rest),
)

-- The files so far, of the paths so far.
abbrev IsSoFar : List Text → List Text → Type 0
IsSoFar paths files =
    (length files ≤ 10) × Pairs AreTwo files × ((10 ≤ length files) ⊎ All (λ p. In p files) paths)

file_step-IsSoFar :
    (paths files : List Text) (path : Text)
    → IsSoFar paths files
    → IsSoFar (paths ++ (path ∷ [])) (file_step files path)
file_step-IsSoFar paths files path (short, once, complete) =
    elim (Bool-cases (leb 10 (length files))) [
      | inl full ↦ rw full (short, once, inl (ground (arith, full)))
      | inr room ↦ rw room (elim (Bool-cases (any (text_eq path) files)) [
        | inl seen ↦ rw seen (
          short,
          once,
          elim complete [
            | inl full ↦ inl full
            | inr k ↦
                inr (All-append (λ p. In p files) paths (path ∷ []) k (any-In path files seen, tt))
          ],
        )
        | inr new ↦ rw new (
          ground (arith, room, length-append files (path ∷ [])),
          Pairs-snoc AreTwo files path once (any-AreTwo path files new),
          elim complete [
            | inl full ↦ inl (omega (arith, full, length-append files (path ∷ [])))
            | inr k ↦ inr (
                All-append (λ p. In p (files ++ (path ∷ []))) paths (path ∷ [])
                  (All-map paths (λ p m. In-append p files (path ∷ []) m) k)
                  (Any-append_right (λ x. x ≡ path) files (path ∷ []) (inl refl), tt))
          ],
        )
      ])
    ]
  where
    In-append : (p : Text) (xs ys : List Text) → In p xs → In p (xs ++ ys)
    In-append p [] ys h = elim h [ ]
    In-append p (x ∷ xs) ys (inl e) = inl e
    In-append p (x ∷ xs) ys (inr m) = inr (In-append p xs ys m)

context_files_from-IsSoFar :
    (paths files : List Text) (cs : List RetrievedChunk)
    → IsSoFar paths files
    → IsSoFar (paths ++ paths_of cs) (context_files_from files cs)
unfolding context_files_from
context_files_from-IsSoFar paths files [] h = rw (append-nil paths) h
context_files_from-IsSoFar paths files (c ∷ cs) h =
    rw (sym (append_assoc paths (c.file_path ∷ []) (paths_of cs))) (
      context_files_from-IsSoFar (paths ++ (c.file_path ∷ [])) (file_step files c.file_path) cs
        (file_step-IsSoFar paths files c.file_path h))

file_step-All :
    (P : Text → Type 0) (files : List Text) (path : Text)
    → All P files
    → P path
    → All P (file_step files path)
file_step-All P files path h p = elim (Bool-cases (leb 10 (length files))) [
  | inl full ↦ rw full h
  | inr room ↦ rw room (elim (Bool-cases (any (text_eq path) files)) [
    | inl seen ↦ rw seen h
    | inr new ↦ rw new (All-append P files (path ∷ []) h (p, tt))
  ])
]

context_files_from-All :
    (P : Text → Type 0) (files : List Text) (cs : List RetrievedChunk)
    → All P files
    → All P (paths_of cs)
    → All P (context_files_from files cs)
unfolding context_files_from
context_files_from-All P files [] h k = h
context_files_from-All P files (c ∷ cs) h (k, ks) =
    context_files_from-All P (file_step files c.file_path) cs
      (file_step-All P files c.file_path h k) ks

-- The context files of a result are at most ten paths of the selected chunks, none twice, and all of
-- these paths if there are fewer than ten.
pub context_files_from-AreContext :
    (cs : List RetrievedChunk) → AreContext (paths_of cs) (context_files_from [] cs)
context_files_from-AreContext cs =
    let so_far : IsSoFar (paths_of cs) (context_files_from [] cs) =
      context_files_from-IsSoFar [] [] cs (omega arith, tt, inr tt) in
    (
      so_far.0,
      so_far.1,
      context_files_from-All (λ f. In f (paths_of cs)) [] cs tt (All-In (paths_of cs)),
      so_far.2,
    )
