-- ===== src/Prelude/Json.antt =====
-- Decoded JSON values, with the tests and look-ups that the source makes on them.
use Prim.Native.Nat.{ℕ}
use Prim.Native.String.{String}
use mathlib.Core.Bool.{Bool, true, false}
use mathlib.Core.Option.{Option, none, some}
use text.Mathlib.Text.{◌==◌}
use discord_stoat_ferry.Prelude.Tests.{if◌then◌else◌}

mutual
  pub data Value : Type 0 where
    null : Value
    boolean : Bool → Value
    string : String → Value
    number : ℕ → Value
    array : Items → Value
    object : Fields → Value

  pub data Items : Type 0 where
    nil : Items
    cons : Value → Items → Items

  pub data Fields : Type 0 where
    end : Fields
    field : String → Value → Fields → Fields

-- `fields.get(name)`
unfoldable pub get : Fields → String → Option Value
get end name = none
get (field key value fields) name = if key == name then some value else get fields name

unfoldable pub is_object : Value → Bool
is_object (object fields) = true
is_object value = false

-- `value.get(name)` where the value is a dict, None if it is not or has no such key
unfoldable pub member : Value → String → Value
unfolding get
member (object fields) name = elim (get fields name) [ none ↦ null | some value ↦ value ]
member value name = null

unfoldable pub is_text : Value → (String → Bool) → Bool
is_text (string s) p = p s
is_text value p = false
