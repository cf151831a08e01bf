-- ===== src/Common/Dict.antt =====
-- Python's `dict` with texts for keys, in the order of insertion.
use mathlib.Core.Path.{◌≡◌, refl, ap}
use mathlib.Core.Bool.{true, false}
use mathlib.Core.Option.{Option, none, some}
use mathlib.Core.List.{List, [], ◌∷◌, ◌++◌}
use native.Mathlib.Omega.{arith}
use codesensei.Common.Tests.{if◌then◌else◌}
use codesensei.Common.Lists.{All}
use codesensei.Common.Strings.{Text, text_eq, text_eq_iff}

module _ {V : Type 0} where
  -- `d.get(k)`.
  abbrev pub get : Text → List (Text × V) → Option V
  get k [] = none
  get k ((j, v) ∷ d) = let rest = get k d in if text_eq j k then some v else rest

  -- `d[k] = f(d.get(k))`; a new key comes last.
  abbrev pub update : Text → (Option V → V) → List (Text × V) → List (Text × V)
  update k f [] = (k, f none) ∷ []
  update k f ((j, v) ∷ d) =
      let rest = update k f d in if text_eq j k then (j, f (some v)) ∷ d else (j, v) ∷ rest

  -- `d[k] = v`, and `d.setdefault(k, v)`.
  abbrev pub assign : Text → V → List (Text × V) → List (Text × V)
  assign k v = update k (λ _. v)

  abbrev pub or_value : V → Option V → V
  or_value v none = v
  or_value v (some w) = w

  abbrev pub set_default : Text → V → List (Text × V) → List (Text × V)
  set_default k v = update k (or_value v)

  -- The key is new.
  abbrev pub LacksKey : Text → List (Text × V) → Type 0
  LacksKey k = All (λ e. text_eq e.0 k ≡ false)

  pub update-new :
      (k : Text) (f : Option V → V) (d : List (Text × V))
      → LacksKey k d
      → update k f d ≡ d ++ ((k, f none) ∷ [])
  update-new k f [] h = refl
  update-new k f ((j, v) ∷ d) (h, hs) = rw h (ap (λ r. (j, v) ∷ r) (update-new k f d hs))

  pub assign-new :
      (k : Text) (v : V) (d : List (Text × V)) → LacksKey k d → assign k v d ≡ d ++ ((k, v) ∷ [])
  assign-new k v d h = update-new k (λ _. v) d h

  pub set_default-new :
      (k : Text) (v : V) (d : List (Text × V))
      → LacksKey k d
      → set_default k v d ≡ d ++ ((k, v) ∷ [])
  set_default-new k v d h = update-new k (or_value v) d h

  pub get-update :
      (k j : Text) (f : Option V → V) (d : List (Text × V))
      → get j (update k f d) ≡ (if text_eq k j then some (f (get k d)) else get j d)
  get-update k j f [] = refl
  get-update k j f ((i, v) ∷ d) =
      ground (arith, text_eq_iff i k, text_eq_iff i j, text_eq_iff k j, get-update k j f d)

  pub get-update_same :
      (k j : Text) (f : Option V → V) (d : List (Text × V))
      → text_eq k j ≡ true
      → get j (update k f d) ≡ some (f (get k d))
  get-update_same k j f d h = ground (arith, get-update k j f d)

  pub get-update_other :
      (k j : Text) (f : Option V → V) (d : List (Text × V))
      → text_eq k j ≡ false
      → get j (update k f d) ≡ get j d
  get-update_other k j f d h = ground (arith, get-update k j f d)
