-- ===== src/Review/Attach/Laws.antt =====
-- Which findings get which history.
use codesensei.Common.{
  ℤ, ◌≤◌, ◌≡◌, refl, ap, ◌∙◌, inl, inr, Bool, true, false, Option, none, some, List, [], ◌∷◌, ◌++◌,
  Text, le→leb, arith, if◌then◌else◌, length, all, map, All, Any, Bool-cases, text_eq,
}
use codesensei.Common.Dict.{get}
use codesensei.Review.Schema.{TemporalEntry, Finding}
use codesensei.Review.Windows.{LineWindow}
use codesensei.Review.Temporal.{Found, Pool}
use codesensei.Review.Attach.{
  is_valid_entry, shortened, validated, holds_line, first_window, window_of, with_entries,
  attach_window, attach_one, cons_finding, attach_temporal_context,
}

-- The window has no entries, or does not hold the line.
abbrev pub Misses : Option ℤ → Found → Type 0
Misses line (w, []) = Unit
Misses line (w, e ∷ es) = holds_line w line ≡ false

-- The finding as it was, where every window of its file misses its line; or with the entries of the
-- first window of its file that does not.
pub data IsAttached (ws : List Found) (f : Finding) : Finding → Type 0 where
  unchanged : All (Misses f.line) ws → IsAttached ws f f
  attached :
      (before after : List Found) (w : LineWindow) (e : TemporalEntry) (es : List TemporalEntry)
      → ws ≡ before ++ ((w, e ∷ es) ∷ after)
      → All (Misses f.line) before
      → holds_line w f.line ≡ true
      → IsAttached ws f (record f { temporal_context = some (e ∷ es) })

abbrev pub windows_of_file : Pool → Finding → List Found
windows_of_file pool f = elim (get f.file pool) [ none ↦ [] | some ws ↦ ws ]

-- The two lists have one length, and agree place by place.
abbrev pub AreAttached : Pool → List Finding → List Finding → Type 0
AreAttached pool [] [] = Unit
AreAttached pool [] (g ∷ gs) = ⊥
AreAttached pool (f ∷ fs) [] = ⊥
AreAttached pool (f ∷ fs) (g ∷ gs) =
    IsAttached (windows_of_file pool f) f g × AreAttached pool fs gs

-- The entry passes the validation, and its subject is not cut.
abbrev pub IsSound : TemporalEntry → Type 0
IsSound e = (is_valid_entry e ≡ true) × (length e.subject ≤ 120)

abbrev pub AreSound : List Found → Type 0
AreSound = All (λ w. All IsSound w.1)

abbrev pub IsSoundPool : Pool → Type 0
IsSoundPool = All (λ e. AreSound e.1)

cond_true : (a b : Bool) → a ≡ true → b ≡ true → (if a then b else false) ≡ true
cond_true a b h k = rw (h, k) refl

valid_or_none :
    (b : Bool) (es : List TemporalEntry) → b ≡ true → (if b then some es else none) ≡ some es
valid_or_none b es h = rw h refl

two_somes :
    {o : Option Finding} {os : Option (List Finding)} {g : Finding} {gs : List Finding}
    → o ≡ some g
    → os ≡ some gs
    → cons_finding o os ≡ some (g ∷ gs)
two_somes e es = rw (e, es) refl

shortened_sound : (e : TemporalEntry) → length e.subject ≤ 120 → shortened e ≡ e
shortened_sound e h = rw (le→leb (length e.subject) 120 h) refl

map-shortened : (es : List TemporalEntry) → All IsSound es → map shortened es ≡ es
map-shortened [] h = refl
map-shortened (e ∷ es) ((_, short), hs) = rw (shortened_sound e short, map-shortened es hs) refl

all-IsSound : (es : List TemporalEntry) → All IsSound es → all is_valid_entry es ≡ true
all-IsSound [] h = refl
all-IsSound (e ∷ es) ((valid, _), hs) = cond_true (is_valid_entry e) _ valid (all-IsSound es hs)

validated_sound : (es : List TemporalEntry) → All IsSound es → validated es ≡ some es
validated_sound es h =
    valid_or_none (all is_valid_entry es) (map shortened es) (all-IsSound es h)
    ∙ ap some (map-shortened es h)

IsAttached-later :
    (x : Found) (ws : List Found) (f g : Finding)
    → Misses f.line x
    → IsAttached ws f g
    → IsAttached (x ∷ ws) f g
IsAttached-later x ws f _ m (unchanged ms) = unchanged (m, ms)
IsAttached-later x ws f _ m (attached before after w e es parts ms holds) =
    attached (x ∷ before) after w e es (ap (λ xs. x ∷ xs) parts) (m, ms) holds

abbrev Attaches : List Found → Finding → Option Found → Type 0
Attaches ws f o = (g : Finding) × (attach_window f o ≡ some g) × IsAttached ws f g

Attaches-later :
    (x : Found) (ws : List Found) (f : Finding) (o : Option Found)
    → Misses f.line x
    → Attaches ws f o
    → Attaches (x ∷ ws) f o
Attaches-later x ws f o m (g, e, a) = (g, e, IsAttached-later x ws f g m a)

Attaches-here :
    (w : LineWindow) (e : TemporalEntry) (es : List TemporalEntry) (ws : List Found) (f : Finding)
    → All IsSound (e ∷ es)
    → holds_line w f.line ≡ true
    → Attaches ((w, e ∷ es) ∷ ws) f (some (w, e ∷ es))
Attaches-here w e es ws f h holds = (
  record f { temporal_context = some (e ∷ es) },
  ap (with_entries f) (validated_sound (e ∷ es) h),
  attached [] ws w e es refl tt holds,
)

first_window-Attaches :
    (ws : List Found) (f : Finding) → AreSound ws → Attaches ws f (first_window f.line ws)
first_window-Attaches [] f h = (f, refl, unchanged tt)
first_window-Attaches ((w, []) ∷ ws) f (h, hs) =
    Attaches-later (w, []) ws f (first_window f.line ws) tt (first_window-Attaches ws f hs)
first_window-Attaches ((w, e ∷ es) ∷ ws) f (h, hs) = elim (Bool-cases (holds_line w f.line)) [
  | inl holds ↦ rw holds (Attaches-here w e es ws f h holds)
  | inr misses ↦ rw misses (
      Attaches-later (w, e ∷ es) ws f (first_window f.line ws) misses
        (first_window-Attaches ws f hs))
]

attach_one-IsAttached :
    (f : Finding) (o : Option (List Found))
    → All AreSound (elim o [ none ↦ [] | some ws ↦ ws ∷ [] ])
    → Attaches
        (elim o [ none ↦ [] | some ws ↦ ws ])
        f
        (elim o [ none ↦ none | some ws ↦ first_window f.line ws ])
attach_one-IsAttached f none h = (f, refl, unchanged tt)
attach_one-IsAttached f (some ws) h = first_window-Attaches ws f h.0

get-AreSound :
    (path : Text) (pool : Pool)
    → IsSoundPool pool
    → All AreSound (elim (get path pool) [ none ↦ [] | some ws ↦ ws ∷ [] ])
get-AreSound path [] h = tt
get-AreSound path ((p, ws) ∷ pool) (h, hs) = elim (Bool-cases (text_eq p path)) [
  | inl same ↦ rw same (h, tt)
  | inr other ↦ rw other (get-AreSound path pool hs)
]

AreAttached-cons :
    (pool : Pool) (f : Finding) (fs gs : List Finding) (g : Finding)
    → attach_one pool f ≡ some g
    → IsAttached (windows_of_file pool f) f g
    → attach_temporal_context pool fs ≡ some gs
    → AreAttached pool fs gs
    → (hs : List Finding) × (attach_temporal_context pool (f ∷ fs) ≡ some hs)
      × AreAttached pool (f ∷ fs) hs
unfolding attach_temporal_context
AreAttached-cons pool f fs gs g e a es rest = (g ∷ gs, two_somes e es, (a, rest))

-- Where every entry of the pool passes the validation and has a subject of at most 120 characters,
-- the findings come back in their places, each as it was if no window of its file with entries
-- holds its line, and else with the entries of the first such window and nothing else changed.
pub attach_temporal_context-AreAttached :
    (pool : Pool) (fs : List Finding)
    → IsSoundPool pool
    → (gs : List Finding) × (attach_temporal_context pool fs ≡ some gs) × AreAttached pool fs gs
unfolding attach_temporal_context
attach_temporal_context-AreAttached pool [] h = ([], refl, tt)
attach_temporal_context-AreAttached pool (f ∷ fs) h =
    let (g, e, a) = attach_one-IsAttached f (get f.file pool) (get-AreSound f.file pool h) in
    let (gs, es, rest) = attach_temporal_context-AreAttached pool fs h in
    AreAttached-cons pool f fs gs g e a es rest

not_valid : (e : TemporalEntry) → e.subject ≡ [] → is_valid_entry e ≡ false
not_valid e empty = ground (arith, ap length empty)

false_last : (a b : Bool) → b ≡ false → (if a then b else false) ≡ false
false_last true b h = h
false_last false b h = refl

invalid_none :
    (b : Bool) (es : List TemporalEntry) → b ≡ false → (if b then some es else none) ≡ none
invalid_none b es h = rw h refl

none_last : (o : Option Finding) (os : Option (List Finding)) → os ≡ none → cons_finding o os ≡ none
none_last none os h = refl
none_last (some g) os h = rw h refl

-- An entry with an empty subject fails the validation.
Any-invalid :
    (es : List TemporalEntry) → Any (λ e. e.subject ≡ []) es → all is_valid_entry es ≡ false
Any-invalid [] h = elim h [ ]
Any-invalid (e ∷ es) (inl empty) = rw (not_valid e empty) refl
Any-invalid (e ∷ es) (inr later) = false_last (is_valid_entry e) _ (Any-invalid es later)

-- Where the first window of its file that holds a finding's line has a commit with an empty subject,
-- the validation raises, and no finding of the review gets its history, whatever the others are.
pub attach_temporal_context-eq-none :
    (pool : Pool) (front back : List Finding) (f : Finding) (w : LineWindow)
    (es : List TemporalEntry)
    → window_of pool f ≡ some (w, es)
    → Any (λ e. e.subject ≡ []) es
    → attach_temporal_context pool (front ++ (f ∷ back)) ≡ none
unfolding attach_temporal_context
attach_temporal_context-eq-none pool [] back f w es found empty =
    ap (λ o. cons_finding o (attach_temporal_context pool back))
      (ap (attach_window f) found
        ∙ ap (with_entries f) (invalid_none (all is_valid_entry es) _ (Any-invalid es empty)))
attach_temporal_context-eq-none pool (g ∷ front) back f w es found empty =
    none_last (attach_one pool g) _
      (attach_temporal_context-eq-none pool front back f w es found empty)
