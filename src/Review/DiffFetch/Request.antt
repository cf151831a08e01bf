-- ===== src/Review/DiffFetch/Request.antt =====
-- What a request that passes is, and what its address fetches.
use codesensei.Common.{
  ◌≡◌, refl, ap, ◌∙◌, inl, inr, ◌⊎◌, Bool, true, false, Option, none, some, [], ◌∷◌, Text,
  Bool-cases, ◌==◌, length,
}
use codesensei.Common.Digits.{Unicode, is_some}
use codesensei.Review.Errors.{ReviewError, Result, ok, raised, raised_other, invalid_input}
use codesensei.Review.DiffFetch.{
  FetchEnd, responds, http_error, get_raises, Fetched, fail, after_get, api_url, match_url,
  with_match, fetch_pr_diff, looks_like_unified_diff, ReviewRequest, has_value, or_empty, checked,
  exactly_one,
}

-- A diff that looks like one and no address, or an address of a pull request and no diff.
abbrev pub IsValid : Unicode → ReviewRequest → Type 0
IsValid u r =
    ((has_value r.pr_url ≡ false) × (looks_like_unified_diff (or_empty r.diff) ≡ true))
    ⊎ ((has_value r.diff ≡ false) × (is_some (match_url u (or_empty r.pr_url)) ≡ true))

-- A request passes unchanged, or it is refused as invalid input.
abbrev pub IsChecked : Type 0 → ReviewRequest → Result ReviewRequest → Type 0
IsChecked Valid r (ok s) = (s ≡ r) × Valid
IsChecked Valid r (raised e) = (e.category ≡ invalid_input) × ¬ Valid
IsChecked Valid r raised_other = ⊥

checked-IsChecked :
    (has_diff has_url like_diff like_url : Bool) (r : ReviewRequest)
    → (like_diff ≡ true → has_diff ≡ true)
    → (like_url ≡ true → has_url ≡ true)
    → IsChecked
        (((has_url ≡ false) × (like_diff ≡ true)) ⊎ ((has_diff ≡ false) × (like_url ≡ true)))
        r
        (checked has_diff has_url like_diff like_url r)
checked-IsChecked true true like_diff like_url r d v =
    (refl, λ k. elim k [ inl a ↦ cc a.0 | inr a ↦ cc a.0 ])
checked-IsChecked false false true like_url r d v = cc (d refl)
checked-IsChecked false false false true r d v = cc (v refl)
checked-IsChecked false false false false r d v =
    (refl, λ k. elim k [ inl a ↦ cc a.1 | inr a ↦ cc a.1 ])
checked-IsChecked true false true like_url r d v = (refl, inl (refl, refl))
checked-IsChecked true false false like_url r d v =
    (refl, λ k. elim k [ inl a ↦ cc a.1 | inr a ↦ cc a.0 ])
checked-IsChecked false true like_diff true r d v = (refl, inr (refl, refl))
checked-IsChecked false true like_diff false r d v =
    (refl, λ k. elim k [ inl a ↦ cc a.0 | inr a ↦ cc a.1 ])

diff-value : (o : Option Text) → looks_like_unified_diff (or_empty o) ≡ true → has_value o ≡ true
unfolding looks_like_unified_diff
diff-value none h = cc h
diff-value (some []) h = cc h
diff-value (some (c ∷ s)) h = refl

url-value :
    (u : Unicode) (o : Option Text) → is_some (match_url u (or_empty o)) ≡ true → has_value o ≡ true
unfolding match_url
url-value u none h = cc h
url-value u (some []) h = cc h
url-value u (some (c ∷ s)) h = refl

-- A request passes unchanged just where it has a diff that looks like one and no address, or an
-- address of a pull request and no diff; otherwise it is refused as invalid input.
pub exactly_one-IsChecked :
    (u : Unicode) (r : ReviewRequest) → IsChecked (IsValid u r) r (exactly_one u r)
unfolding exactly_one
exactly_one-IsChecked u r =
    checked-IsChecked (has_value r.diff) (has_value r.pr_url)
      (looks_like_unified_diff (or_empty r.diff)) (is_some (match_url u (or_empty r.pr_url))) r
      (diff-value r.diff) (url-value u r.pr_url)

-- One address is asked, and a failure of the fetch is no invalid input.
abbrev pub IsFetched : Fetched → Type 0
IsFetched f = (length f.asked ≡ 1) × ((e : ReviewError) → f.diff ≡ raised e → e ≡ fail)

after_get-fail : (g : FetchEnd) (e : ReviewError) → after_get g ≡ raised e → e ≡ fail
after_get-fail (responds code text) e h = elim (Bool-cases (code == 200)) [
  | inl fine ↦ cc (h, fine)
  | inr bad ↦ cc (h, bad)
]
after_get-fail http_error e h = cc h
after_get-fail get_raises e h = cc h

with_match-IsFetched :
    (get : Text → FetchEnd) (m : Option (Text × Text × Text))
    → is_some m ≡ true
    → IsFetched (with_match get m)
with_match-IsFetched get none h = cc h
with_match-IsFetched get (some m) h = (refl, after_get-fail (get (api_url m)))

-- For the address of a request that passes, the fetch asks GitHub once, and where it raises a
-- `ReviewError` it is the error of a failed fetch, which is not to be retried.
pub fetch_pr_diff-IsFetched :
    (u : Unicode) (get : Text → FetchEnd) (r s : ReviewRequest)
    → exactly_one u r ≡ ok s
    → has_value s.pr_url ≡ true
    → IsFetched (fetch_pr_diff u get (or_empty s.pr_url))
unfolding fetch_pr_diff
fetch_pr_diff-IsFetched u get r s passed url =
    with_match-IsFetched get (match_url u (or_empty s.pr_url))
      (matches (exactly_one u r) passed (exactly_one-IsChecked u r))
  where
    matches :
        (o : Result ReviewRequest)
        → o ≡ ok s
        → IsChecked (IsValid u r) r o
        → is_some (match_url u (or_empty s.pr_url)) ≡ true
    matches (ok t) e (same, inl diff) = cc (e, same, diff.0, url)
    matches (ok t) e (same, inr address) =
        let at : s.pr_url ≡ r.pr_url = cc (e, same) in
        ap (λ o. is_some (match_url u (or_empty o))) at ∙ address.1
    matches (raised x) e h = cc e
    matches raised_other e h = cc e
