-- ===== src/Prelude/Json.antt =====
-- What serde_json reads a text into, and how a field is looked up there. A number is what `as_i64` gives
-- for it, in two's complement.
use Prim.Native.Nat.{ℕ}
use Prim.Native.String.{String}
use mathlib.Core.Bool.{Bool}
use mathlib.Core.Option.{Option, none, some}
use text.Mathlib.Text.{◌==◌ as ◌=s◌}
use tutabridge.Prelude.Tests.{if◌then◌else◌}

mutual
  pub data Value : Type 0 where
    null : Value
    bool : Bool → Value
    number : Option ℕ → Value
    string : String → Value
    array : Values → Value
    object : Fields → Value

  pub data Values : Type 0 where
    no_values : Values
    value : Value → Values → Values

  pub data Fields : Type 0 where
    no_fields : Fields
    field : String → Value → Fields → Fields

find_field : String → Fields → Option Value
find_field key no_fields = none
find_field key (field name v fs) = if name =s key then some v else find_field key fs

-- `Value::get`
unfoldable pub get : String → Value → Option Value
unfolding find_field
get key (object fs) = find_field key fs
get key _ = none

abbrev pub as_str : Option Value → Option String
as_str (some (string s)) = some s
as_str _ = none
