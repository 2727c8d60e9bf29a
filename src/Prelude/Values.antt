-- ===== src/Prelude/Values.antt =====
-- Values of Go that the library has no type for: a float64 as a fraction, and the values that
-- encoding/json makes for an `any`.
use Prim.Native.Nat.{ℕ, suc}
use mathlib.Core.Bool.{Bool}
use mathlib.Core.Option.{Option, none, some}
use eval_prompt.Prelude.Tests.{if◌then◌else◌}
use eval_prompt.Prelude.Equality.{◌==◌, nat_eq, list_eq}
use eval_prompt.Prelude.Texts.{Text}
use eval_prompt.Prelude.Int.{ℤ}

-- `num / den`, not reduced: a quotient of two ints that the program makes a float64.
pub record Fraction : Type 0 where
  pub num : ℤ
  pub den : ℕ

mutual
  pub data Json : Type 0 where
    null : Json
    bool : Bool → Json
    number : Fraction → Json
    str : Text → Json
    arr : Items → Json
    obj : Fields → Json

  pub data Items : Type 0 where
    nil : Items
    cons : Json → Items → Items

  pub data Fields : Type 0 where
    end : Fields
    field : Text → Json → Fields → Fields

-- `m[key]`, which is nil where the key is missing.
unfoldable pub get_field : Text → Fields → Json
get_field key end = null
get_field key (field k v fs) = let rest = get_field key fs in if k == key then v else rest

-- `v.(string)`.
abbrev pub as_text : Json → Option Text
as_text (str s) = some s
as_text _ = none

unfoldable pub get_item : Items → ℕ → Option Json
get_item nil i = none
get_item (cons v vs) ℕ.zero = some v
get_item (cons v vs) (suc i) = get_item vs i

abbrev pub count_items : Items → ℕ
count_items nil = 0
count_items (cons v vs) = suc (count_items vs)
