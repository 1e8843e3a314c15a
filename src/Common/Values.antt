-- ===== src/Common/Values.antt =====
-- Python values as JSON has them, with truth and the lookup of a key.
use Prim.Native.String.{String}
use mathlib.Core.Bool.{Bool, true, false, not, ◌||◌}
use mathlib.Core.List.{List, [], ◌∷◌}
use mathlib.Core.Option.{Option, none, some}
use Prim.Native.Nat.{zero, suc}
use praxis_ai_agent_platform.Common.Tests.{◌==◌, if◌then◌else◌, string_eq}
use praxis_ai_agent_platform.Common.Ints.{ℤ, pos, negsuc}

mutual
  pub data Json : Type 0 where
    null : Json
    boolean : Bool → Json
    number : ℤ → Json
    string : String → Json
    array : Items → Json
    object : Fields → Json

  pub data Items : Type 0 where
    no_items : Items
    item : Json → Items → Items

  pub data Fields : Type 0 where
    no_fields : Fields
    field : String → Json → Fields → Fields

-- `bool(value)`
abbrev pub truthy : Json → Bool
truthy null = false
truthy (boolean b) = b
truthy (number (pos zero)) = false
truthy (number (pos (suc n))) = true
truthy (number (negsuc n)) = true
truthy (string s) = not (s == "")
truthy (array no_items) = false
truthy (array (item v vs)) = true
truthy (object no_fields) = false
truthy (object (field k v fs)) = true

-- `d.get(key)` on the fields of an object
unfoldable pub get_field : String → Fields → Option Json
get_field key no_fields = none
get_field key (field k v fs) = let rest = get_field key fs in if k == key then some v else rest

-- `any(bool(v) for v in d.values())`
unfoldable pub any_truthy : Fields → Bool
any_truthy no_fields = false
any_truthy (field k v fs) = truthy v || any_truthy fs

-- the members of a list
unfoldable pub items : Items → List Json
items no_items = []
items (item v vs) = v ∷ items vs
