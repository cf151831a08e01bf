-- ===== src/Review/Hunks/Numbers.antt =====
-- The numbers of a header are read.
use codesensei.Common.{
  ℕ, ◌+◌, ◌*◌, ◌≤◌, ◌≡◌, refl, inl, inr, Bool, true, false, not, ◌&&◌, Option, none, some, [], ◌∷◌,
  Text, codes, ltb, ◌==◌, length, length-drop, keep, is_empty, is_space, starts_with, strip_prefix,
  span, All, Bool-cases, arith,
}
use codesensei.Common.Options.{Holds, HasValue, Holds-bind}
use codesensei.Common.Digits.{Unicode, parse_nat, read_digits, is_some}
use codesensei.Review.Hunks.{
  is_digit, one_space, some_digits, optional_number, optional_from, side, matched, match_hunk,
}

abbrev pub Shorter : ℕ → Text → Type 0
Shorter n s = length s ≤ n

strip_prefix-Shorter :
    (prefix s : Text) (n : ℕ) → length s ≤ n → Holds (Shorter n) (strip_prefix prefix s)
strip_prefix-Shorter prefix s n h = elim (Bool-cases (starts_with s prefix)) [
  | inl hit ↦ rw hit (omega (arith, length-drop (length prefix) s))
  | inr miss ↦ rw miss tt
]

one_space-Shorter : (s : Text) (n : ℕ) → length s ≤ n → Holds (Shorter n) (one_space s)
one_space-Shorter [] n h = tt
one_space-Shorter (c ∷ s) n h = elim (Bool-cases (is_space c)) [
  | inl space ↦ rw space (omega arith)
  | inr other ↦ rw other tt
]

-- Digits, at least one and at most `n`.
abbrev pub AreDigits : Unicode → ℕ → Text → Type 0
AreDigits u n s = (is_empty s ≡ false) × All (λ c. is_digit u c ≡ true) s × (length s ≤ n)

span_parts :
    (p : ℕ → Bool) (s : Text)
    → All (λ c. p c ≡ true) (span p s).0
      × (length (span p s).0 ≤ length s)
      × (length (span p s).1 ≤ length s)
span_parts p [] = (tt, omega arith, omega arith)
span_parts p (c ∷ s) =
    let (all, front, back) = span_parts p s in
    elim (Bool-cases (p c)) [
      | inl passes ↦ rw passes ((passes, all), omega (arith, front), omega (arith, back))
      | inr stops ↦ rw stops (tt, omega arith, omega arith)
    ]

some_digits-AreDigits :
    (u : Unicode) (s : Text) (n : ℕ)
    → length s ≤ n
    → Holds (λ p. AreDigits u n p.0 × Shorter n p.1) (some_digits u s)
some_digits-AreDigits u s n h = elim (Bool-cases (is_empty (span (is_digit u) s).0)) [
  | inl empty ↦ rw empty tt
  | inr filled ↦
      let (all, front, back) = span_parts (is_digit u) s in
      rw filled ((filled, all, omega (arith, front, h)), omega (arith, back, h))
]

abbrev pub IsSizeIn : Unicode → ℕ → Option Text → Type 0
IsSizeIn u n o = Holds (AreDigits u n) o

optional_from-IsSizeIn :
    (u : Unicode) (s : Text) (n : ℕ) (o : Option (Text × Text))
    → length s ≤ n
    → Holds (λ p. AreDigits u n p.0 × Shorter n p.1) o
    → IsSizeIn u n (optional_from s o).0 × Shorter n (optional_from s o).1
optional_from-IsSizeIn u s n none h k = (tt, h)
optional_from-IsSizeIn u s n (some (digits, rest)) h k = k

optional_number-IsSizeIn :
    (u : Unicode) (s : Text) (n : ℕ)
    → length s ≤ n
    → IsSizeIn u n (optional_number u s).0 × Shorter n (optional_number u s).1
optional_number-IsSizeIn u [] n h = (tt, h)
optional_number-IsSizeIn u (c ∷ s) n h = elim (Bool-cases (c == b',')) [
  | inl comma ↦ rw comma (
      optional_from-IsSizeIn u (c ∷ s) n (some_digits u s) h
        (some_digits-AreDigits u s n (omega (arith, h))))
  | inr other ↦ rw other (tt, h)
]

abbrev IsSide : Unicode → ℕ → Text × Option Text × Text → Type 0
IsSide u n p = AreDigits u n p.0 × IsSizeIn u n p.1 × Shorter n p.2

side-IsSide : (u : Unicode) (s : Text) (n : ℕ) → length s ≤ n → Holds (IsSide u n) (side u s)
side-IsSide u s n h =
    Holds-bind (λ p. AreDigits u n p.0 × Shorter n p.1) (IsSide u n) (some_digits u s) _
      (λ p k.
        let (size, rest) = optional_number-IsSizeIn u p.1 n k.1 in
        Holds-bind (Shorter n) (IsSide u n) (one_space (optional_number u p.1).1) _
          (λ r short. (k.0, size, short)) (one_space-Shorter (optional_number u p.1).1 n rest))
      (some_digits-AreDigits u s n h)

abbrev pub AreGroups : Unicode → ℕ → Text × Option Text → Type 0
AreGroups u n g = AreDigits u n g.0 × IsSizeIn u n g.1

matched-AreGroups :
    (u : Unicode) (n : ℕ) (start : Text) (size : Option Text) (o : Option Text)
    → AreGroups u n (start, size)
    → Holds (AreGroups u n) (matched start size o)
matched-AreGroups u n start size none h = tt
matched-AreGroups u n start size (some rest) h = h

pub match_hunk-AreGroups :
    (u : Unicode) (raw : Text) (n : ℕ) → length raw ≤ n → Holds (AreGroups u n) (match_hunk u raw)
unfolding match_hunk
match_hunk-AreGroups u raw n h =
    let P : Text → Type 0 = Shorter n in
    let G : Text × Option Text → Type 0 = AreGroups u n in
    Holds-bind P G (strip_prefix (codes "@@") raw) _
      (λ s1 h1.
        Holds-bind P G (one_space s1) _
          (λ s2 h2.
            Holds-bind P G (strip_prefix (codes "-") s2) _
              (λ s3 h3.
                Holds-bind (IsSide u n) G (side u s3) _
                  (λ old h4.
                    Holds-bind P G (strip_prefix (codes "+") old.2) _
                      (λ s5 h5.
                        Holds-bind (IsSide u n) G (side u s5) _
                          (λ new h6.
                            matched-AreGroups u n new.0 new.1 (strip_prefix (codes "@@") new.2)
                              (h6.0, h6.1))
                          (side-IsSide u s5 n h5))
                      (strip_prefix-Shorter (codes "+") old.2 n h4.2))
                  (side-IsSide u s3 n h3))
              (strip_prefix-Shorter (codes "-") s2 n h2))
          (one_space-Shorter s1 n h1))
      (strip_prefix-Shorter (codes "@@") raw n h)

length-keep-le : (p : ℕ → Bool) (s : Text) → length (keep p s) ≤ length s
length-keep-le p [] = omega arith
length-keep-le p (c ∷ s) = elim (Bool-cases (p c)) [
  | inl kept ↦ rw kept (omega (arith, length-keep-le p s))
  | inr left ↦ rw left (omega (arith, length-keep-le p s))
]

ltb-keep_false :
    (s : Text) (p : ℕ → Bool) → length s ≤ 4300 → ltb 4300 (length (keep p s)) ≡ true → ⊥
ltb-keep_false s p h over = ground (arith, over, length-keep-le p s)

some-HasValue :
    (o : Option ℕ) (f : ℕ → Option ℕ) (other : Option ℕ)
    → is_some o ≡ true
    → ((d : ℕ) → HasValue (λ n. Unit {0}) (f d))
    → HasValue (λ n. Unit {0}) (elim o [ some d ↦ f d | none ↦ other ])
some-HasValue none f other h k = cc
some-HasValue (some d) f other h k = k d

-- Digits after a digit, or at least one.
read_digits-HasValue :
    (u : Unicode) (s : Text) (acc : ℕ) (after : Bool)
    → All (λ c. is_digit u c ≡ true) s
    → (not after && is_empty s) ≡ false
    → HasValue (λ n. Unit {0}) (read_digits u after acc s)
read_digits-HasValue u [] acc true all h = tt
read_digits-HasValue u [] acc false all h = cc
read_digits-HasValue u (c ∷ s) acc after (digit, all) h =
    some-HasValue (u.digit c) (λ d. read_digits u true (acc * 10 + d) s) _ digit
      (λ d. read_digits-HasValue u s (acc * 10 + d) true all refl)

-- Digits are read, as long as there are no more than 4300.
pub parse_nat-AreDigits :
    (u : Unicode) (s : Text) → AreDigits u 4300 s → HasValue (λ n. Unit {0}) (parse_nat u s)
unfolding parse_nat
parse_nat-AreDigits u s (filled, all, short) =
    elim (Bool-cases (ltb 4300 (length (keep (λ c. is_some (u.digit c)) s)))) [
      | inl over ↦ absurd (ltb-keep_false s (λ c. is_some (u.digit c)) short over)
      | inr within ↦ rw within (read_digits-HasValue u s 0 false all filled)
    ]
