-- ===== src/Review/Parser/Fences.antt =====
-- A review in a fence is the review.
use codesensei.Common.{
  ℕ, ◌-◌, ◌≡◌, refl, sym, ap, ◌∙◌, true, false, [], ◌∷◌, ◌++◌, Text, codes, text_eq_refl, le→leb,
  length, length-append, take, is_empty, is_space, drop_last_space, lstrip, rstrip, strip,
  starts_with, ends_with, lstrip_char, lstrip-nonspace, drop-length-append, arith,
}
use mathlib.Core.List.{append_assoc}
use codesensei.Review.Parser.{
  Libraries, unclosed, unfence, strip_fences, parse_review, cleaned_review,
}

rstrip-append :
    (front back : Text)
    → is_empty back ≡ false
    → rstrip back ≡ back
    → rstrip (front ++ back) ≡ front ++ back
unfolding rstrip
rstrip-append [] back filled h = h
rstrip-append (c ∷ front) back filled h =
    ap (drop_last_space c) (rstrip-append front back filled h)
    ∙ drop_last_space-filled c (front ++ back) (filled-append front back filled)
  where
    filled-append : (front back : Text) → is_empty back ≡ false → is_empty (front ++ back) ≡ false
    filled-append [] back h = h
    filled-append (c ∷ front) back h = refl

    drop_last_space-filled : (c : ℕ) (s : Text) → is_empty s ≡ false → drop_last_space c s ≡ c ∷ s
    drop_last_space-filled c [] h = cc
    drop_last_space-filled c (d ∷ s) h = refl

rstrip-snoc : (s : Text) (d : ℕ) → is_space d ≡ true → rstrip (s ++ (d ∷ [])) ≡ rstrip s
unfolding rstrip
rstrip-snoc [] d h = rw h refl
rstrip-snoc (c ∷ s) d h = ap (drop_last_space c) (rstrip-snoc s d h)

take-length-append : (front back : Text) → take (length front) (front ++ back) ≡ front
take-length-append [] back = refl
take-length-append (c ∷ front) back = ap (λ s. c ∷ s) (take-length-append front back)

length-front : (front back : Text) → length (front ++ back) - length back ≡ length front
length-front front back = omega (arith, length-append front back)

ends_with-append : (front suffix : Text) → ends_with (front ++ suffix) suffix ≡ true
unfolding ends_with
ends_with-append front suffix =
    rw
      (
        length-front front suffix,
        drop-length-append front suffix,
        text_eq_refl suffix,
        le→leb (length suffix) (length (front ++ suffix))
            (omega (arith, length-append front suffix)),
      )
      refl

-- The text starts and ends with no white space.
abbrev pub IsStripped : Text → Type 0
IsStripped [] = ⊥
IsStripped (c ∷ s) = (is_space c ≡ false) × (rstrip (c ∷ s) ≡ c ∷ s)

rstrip-IsStripped : (s : Text) → IsStripped s → rstrip s ≡ s
rstrip-IsStripped [] h = elim h [ ]
rstrip-IsStripped (c ∷ s) h = h.1

strip-IsStripped : (s : Text) → IsStripped s → strip s ≡ s
unfolding strip
strip-IsStripped [] h = elim h [ ]
strip-IsStripped (c ∷ s) (first, last) = ap rstrip (lstrip-nonspace c s first) ∙ last

abbrev closing : Text
closing = 10 ∷ codes "```"

-- "```json", the body and "```" on lines of their own.
abbrev pub fenced : Text → Text
fenced body = codes "```json" ++ (10 ∷ (body ++ closing))

rstrip-closing : rstrip closing ≡ closing
unfolding rstrip is_space
rstrip-closing = refl

strip-fenced : (body : Text) → strip (fenced body) ≡ fenced body
unfolding strip lstrip
strip-fenced body = rstrip-append (codes "```json" ++ (10 ∷ body)) closing refl rstrip-closing

lstrip_char-lf : (s : Text) → IsStripped s → lstrip_char 10 (10 ∷ (s ++ closing)) ≡ s ++ closing
unfolding lstrip_char is_space
lstrip_char-lf [] h = elim h [ ]
lstrip_char-lf (c ∷ s) (first, last) = ground (arith, first)

lf-is_space : is_space 10 ≡ true
unfolding is_space
lf-is_space = refl

unclosed-append :
    (body : Text) → IsStripped body → unclosed ((body ++ (10 ∷ [])) ++ codes "```") ≡ body
unclosed-append body h =
    let front : Text = body ++ (10 ∷ []) in
    rw (ends_with-append front (codes "```")) (
      ap (λ n. strip (rstrip (take n (front ++ codes "```")))) (length-front front (codes "```"))
      ∙ ap (λ s. strip (rstrip s)) (take-length-append front (codes "```"))
      ∙ ap strip (rstrip-snoc body 10 lf-is_space)
      ∙ ap strip (rstrip-IsStripped body h)
      ∙ strip-IsStripped body h)

unfence-closing : (body : Text) → IsStripped body → unfence (10 ∷ (body ++ closing)) ≡ body
unfence-closing body h =
    ap unclosed (
      ap rstrip (lstrip_char-lf body h)
      ∙ rstrip-append body closing refl rstrip-closing
      ∙ sym (append_assoc body (10 ∷ []) (codes "```")))
    ∙ unclosed-append body h

strip_fences-fenced : (body : Text) → IsStripped body → strip_fences (fenced body) ≡ body
unfolding strip_fences starts_with
strip_fences-fenced body h = rw (strip-fenced body) (unfence-closing body h)

-- A text that starts with a brace has no fence.
strip_fences-brace : (s : Text) → IsStripped (b'{' ∷ s) → strip_fences (b'{' ∷ s) ≡ b'{' ∷ s
unfolding strip_fences starts_with
strip_fences-brace s h = rw (strip-IsStripped (b'{' ∷ s) h) refl

-- A review that starts with a brace and has no white space around it is parsed alike with and
-- without a fence of "```json" and "```" around it.
pub parse_review-fenced :
    (l : Libraries) (s : Text)
    → IsStripped (b'{' ∷ s)
    → parse_review l (fenced (b'{' ∷ s)) ≡ parse_review l (b'{' ∷ s)
unfolding parse_review
parse_review-fenced l s h =
    ap (cleaned_review l) (strip_fences-fenced (b'{' ∷ s) h ∙ sym (strip_fences-brace s h))
