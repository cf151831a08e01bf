-- ===== src/Common/Json.antt =====
-- JSON values as Python's `json` returns them.
use mathlib.Core.Bool.{Bool}
use mathlib.Core.Option.{Option, none, some}
use codesensei.Common.Tests.{if◌then◌else◌}
use codesensei.Common.Strings.{Text, text_eq}
use codesensei.Common.Int.{ℤ}

mutual
  -- A number that is no integer is `real`.
  pub data Json : Type 0 where
    null : Json
    bool : Bool → Json
    int : ℤ → Json
    real : Text → Json
    str : Text → Json
    array : Items → Json
    object : Fields → Json

  pub data Items : Type 0 where
    none_left : Items
    item : Json → Items → Items

  pub data Fields : Type 0 where
    no_fields : Fields
    field : Text → Json → Fields → Fields

-- `value.get(key)` of an object; of a key that JSON gives twice the last value counts.
abbrev later_or : Option Json → Option Json → Option Json
later_or none b = b
later_or (some a) b = some a

abbrev pub lookup : Text → Fields → Option Json
lookup key no_fields = none
lookup key (field k v fs) = later_or (lookup key fs) (if text_eq k key then some v else none)
