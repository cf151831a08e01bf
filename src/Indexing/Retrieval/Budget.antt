-- ===== src/Indexing/Retrieval/Budget.antt =====
-- What the token budget leaves.
use codesensei.Common.{
  ℕ, ◌+◌, ◌≤◌, ◌<◌, ◌≡◌, refl, sym, inl, inr, ◌⊎◌, List, [], ◌∷◌, ◌++◌, ltb, length, All,
  Bool-cases, arith, In, Pairs, Pairs-without, length-append, Any-append_right,
}
use mathlib.Core.List.{append_assoc, append-nil}
use codesensei.Indexing.Retrieval.{RetrievedChunk, Trim, trim_step, trim_from, trim}

abbrev pub tokens_of : List RetrievedChunk → ℕ
tokens_of [] = 0
tokens_of (c ∷ cs) = c.token_count + tokens_of cs

tokens_of-append :
    (cs : List RetrievedChunk) (c : RetrievedChunk)
    → tokens_of (cs ++ (c ∷ [])) ≡ tokens_of cs + c.token_count
tokens_of-append [] c = omega arith
tokens_of-append (e ∷ cs) c = omega (arith, tokens_of-append cs c)

-- The chunk is selected, or does not fit beside the selected ones.
abbrev pub IsDecided : ℕ → List RetrievedChunk → RetrievedChunk → Type 0
IsDecided budget selected c = In c selected ⊎ (budget < tokens_of selected + c.token_count)

abbrev IsTrim : ℕ → Trim → Type 0
IsTrim budget t = (t.token_total ≡ tokens_of t.selected) × (t.token_total ≤ budget)

In-front : (c : RetrievedChunk) (cs ds : List RetrievedChunk) → In c cs → In c (cs ++ ds)
In-front c [] ds h = elim h [ ]
In-front c (e ∷ cs) ds (inl h) = inl h
In-front c (e ∷ cs) ds (inr h) = inr (In-front c cs ds h)

module _ (budget : ℕ) where
  trim_step-IsTrim :
      (t : Trim) (c : RetrievedChunk) → IsTrim budget t → IsTrim budget (trim_step budget t c)
  trim_step-IsTrim t c (sum, fits) =
      elim (Bool-cases (ltb budget (t.token_total + c.token_count))) [
        | inl over ↦ rw over (sum, fits)
        | inr within ↦
            rw within (omega (arith, sum, tokens_of-append t.selected c), ground (arith, within))
      ]

  trim_step-IsDecided :
      (t : Trim) (c : RetrievedChunk)
      → IsTrim budget t
      → IsDecided budget (trim_step budget t c).selected c
  trim_step-IsDecided t c (sum, fits) =
      elim (Bool-cases (ltb budget (t.token_total + c.token_count))) [
        | inl over ↦ rw over (inr (ground (arith, over, sum)))
        | inr within ↦ rw within (inl (Any-append_right _ t.selected (c ∷ []) (inl refl)))
      ]

  trim_step-keeps :
      (t : Trim) (c e : RetrievedChunk)
      → IsDecided budget t.selected e
      → IsDecided budget (trim_step budget t c).selected e
  trim_step-keeps t c e h = elim (Bool-cases (ltb budget (t.token_total + c.token_count))) [
    | inl over ↦ rw over h
    | inr within ↦ rw within (elim h [
      | inl k ↦ inl (In-front e t.selected (c ∷ []) k)
      | inr big ↦ inr (omega (arith, big, tokens_of-append t.selected c))
    ])
  ]

  trim_from-keeps :
      (t : Trim) (cs : List RetrievedChunk) (e : RetrievedChunk)
      → IsDecided budget t.selected e
      → IsDecided budget (trim_from budget t cs).selected e
  unfolding trim_from
  trim_from-keeps t [] e h = h
  trim_from-keeps t (c ∷ cs) e h =
      trim_from-keeps (trim_step budget t c) cs e (trim_step-keeps t c e h)

  trim_from-IsTrim :
      (t : Trim) (cs : List RetrievedChunk)
      → IsTrim budget t
      → IsTrim budget (trim_from budget t cs)
  unfolding trim_from
  trim_from-IsTrim t [] h = h
  trim_from-IsTrim t (c ∷ cs) h =
      trim_from-IsTrim (trim_step budget t c) cs (trim_step-IsTrim t c h)

  trim_from-IsDecided :
      (t : Trim) (cs : List RetrievedChunk)
      → IsTrim budget t
      → All (IsDecided budget (trim_from budget t cs).selected) cs
  unfolding trim_from
  trim_from-IsDecided t [] h = tt
  trim_from-IsDecided t (c ∷ cs) h = (
    trim_from-keeps (trim_step budget t c) cs c (trim_step-IsDecided t c h),
    trim_from-IsDecided (trim_step budget t c) cs (trim_step-IsTrim t c h),
  )

  trim_from-Pairs :
      (R : RetrievedChunk → RetrievedChunk → Type 0) (t : Trim) (cs : List RetrievedChunk)
      → Pairs R (t.selected ++ cs)
      → Pairs R (trim_from budget t cs).selected
  unfolding trim_from
  trim_from-Pairs R t [] h = rw (sym (append-nil t.selected)) h
  trim_from-Pairs R t (c ∷ cs) h = trim_from-Pairs R (trim_step budget t c) cs (stepped h)
    where
      stepped : Pairs R (t.selected ++ (c ∷ cs)) → Pairs R ((trim_step budget t c).selected ++ cs)
      stepped h = elim (Bool-cases (ltb budget (t.token_total + c.token_count))) [
        | inl over ↦ rw over (Pairs-without R t.selected c cs h)
        | inr within ↦ rw (within, append_assoc t.selected (c ∷ []) cs) h
      ]

  trim_step-length :
      (t : Trim) (c : RetrievedChunk)
      → length (trim_step budget t c).selected ≤ length t.selected + 1
  trim_step-length t c = elim (Bool-cases (ltb budget (t.token_total + c.token_count))) [
    | inl over ↦ rw over (omega arith)
    | inr within ↦ rw within (omega (arith, length-append t.selected (c ∷ [])))
  ]

  trim_from-length :
      (t : Trim) (cs : List RetrievedChunk)
      → length (trim_from budget t cs).selected ≤ length t.selected + length cs
  unfolding trim_from
  trim_from-length t [] = omega arith
  trim_from-length t (c ∷ cs) =
      omega (arith, trim_from-length (trim_step budget t c) cs, trim_step-length t c)

  pub trim-tokens : (cs : List RetrievedChunk) → tokens_of (trim budget cs) ≤ budget
  unfolding trim
  trim-tokens cs =
      let ended =
        trim_from-IsTrim (record { selected = []; token_total = 0 }) cs (refl, omega arith) in
      omega (arith, ended.0, ended.1)

  pub trim-IsDecided : (cs : List RetrievedChunk) → All (IsDecided budget (trim budget cs)) cs
  unfolding trim
  trim-IsDecided cs =
      trim_from-IsDecided (record { selected = []; token_total = 0 }) cs (refl, omega arith)

  pub trim-Pairs :
      (R : RetrievedChunk → RetrievedChunk → Type 0) (cs : List RetrievedChunk)
      → Pairs R cs
      → Pairs R (trim budget cs)
  unfolding trim
  trim-Pairs R cs h = trim_from-Pairs R (record { selected = []; token_total = 0 }) cs h

  pub trim-length : (cs : List RetrievedChunk) → length (trim budget cs) ≤ length cs
  unfolding trim
  trim-length cs = omega (arith, trim_from-length (record { selected = []; token_total = 0 }) cs)
